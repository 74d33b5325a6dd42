-- ===== src/Registry/Requests/Effects.antt =====
-- The calls of access_requests_service.py that a user makes, by their effect on the tables.
use vyuu_mcp_gateway.Prelude.{
  ℕ, ◌≡◌, refl, ap, Bool, true, false, ◌&&◌, String, Option, some, Memᴰ, find, any, ◌==◌, ok,
  raise_if, bind-ok, ok-state, subst, find_sound, arith, Bool-cases, inl, inr,
}
use vyuu_mcp_gateway.Tables.{AccessRequest, is_pending, withdrawn, is_public, Db}
use vyuu_mcp_gateway.Access.{user_has_active_grant}
use vyuu_mcp_gateway.Registry.Errors.{
  RegistryError, access_request_not_found, vserver_is_public, user_already_has_access, or_raise,
  _load_vserver,
}
use vyuu_mcp_gateway.Registry.Issue.{Surroundings}
use vyuu_mcp_gateway.Registry.Effects.{Effect, RequestsStep, GrantsStep, blocks}
use vyuu_mcp_gateway.Registry.Requests.{
  insert_pending, pending_request, update_request, only_pending, _load_pending,
  submit_access_request, withdraw_access_request,
}

pub or_raise-ok :
    {A : Type 0} (e : RegistryError) (o : Option A) {a : A} → or_raise e o ≡ ok a → o ≡ some a
or_raise-ok e o h = ground arith

pub insert_pending-Effect :
    (r : AccessRequest) (db : Db) {out : Db × AccessRequest}
    → is_pending r.status ≡ true
    → insert_pending r db ≡ ok out
    → Effect db out.0
unfolding insert_pending
insert_pending-Effect r db p h =
    elim (Bool-cases (any (blocks r.user_id r.vserver_id r.exposed_tool_name) db.requests)) [
      | inl clash ↦ absurd (ground arith)
      | inr free ↦ record {
        requests = RequestsStep.filed r p free (ground arith);
        grants = GrantsStep.kept (ground arith);
      }
    ]

only_pending-ok :
    (q : AccessRequest) {p : AccessRequest}
    → only_pending q ≡ ok p
    → (p ≡ q) × (is_pending q.status ≡ true)
unfolding only_pending
only_pending-ok q h = ground arith

pub _load_pending-ok :
    (tenant request_id : ℕ) (db : Db) {r : AccessRequest}
    → _load_pending tenant request_id db ≡ ok r
    → Memᴰ r db.requests
      × (is_pending r.status ≡ true)
      × (r.tenant_id ≡ tenant)
      × (r.id ≡ request_id)
unfolding _load_pending
_load_pending-ok tenant request_id db h =
    let p : AccessRequest → Bool = λ q. q.tenant_id == tenant && q.id == request_id in
    let (row, e, h1) =
      bind-ok (or_raise access_request_not_found (find p db.requests)) only_pending h in
    let (i, found) = find_sound p db.requests (or_raise-ok _ _ e) in
    let (same, waiting) = only_pending-ok row h1 in
    (rw same i, rw same waiting, ground arith, ground arith)

pub update_request-Effect :
    (old row : AccessRequest) (db : Db)
    → Memᴰ old db.requests
    → is_pending old.status ≡ true
    → row.id ≡ old.id
    → is_pending row.status ≡ false
    → Effect db (update_request row db)
unfolding update_request
update_request-Effect old row db i p e f = record {
  requests = RequestsStep.decided old row i p e f refl;
  grants = GrantsStep.kept refl;
}

pub submit_access_request-Effect :
    (env : Surroundings) (tenant uid vserver_id : ℕ) (note : Option String) (db : Db)
    {out : Db × AccessRequest}
    → submit_access_request env tenant uid vserver_id note db ≡ ok out
    → Effect db out.0
unfolding submit_access_request pending_request
submit_access_request-Effect env tenant uid vserver_id said db h0 =
    let (v, _, h1) = bind-ok (_load_vserver tenant vserver_id db) _ h0 in
    let (_, _, h2) = bind-ok (raise_if (is_public v.visibility) vserver_is_public) _ h1 in
    let (_, _, h3) =
      bind-ok
        (raise_if (user_has_active_grant tenant vserver_id uid env.checked_at db)
          user_already_has_access)
        _ h2 in
    insert_pending-Effect _ db refl h3

pub withdraw_access_request-Effect :
    (tenant uid request_id : ℕ) (db : Db) {out : Db × AccessRequest}
    → withdraw_access_request tenant uid request_id db ≡ ok out
    → Effect db out.0
unfolding withdraw_access_request
withdraw_access_request-Effect tenant uid request_id db h0 =
    let p : AccessRequest → Bool =
      λ q. q.tenant_id == tenant && q.user_id == uid && q.id == request_id in
    let (row, e, h1) = bind-ok (or_raise access_request_not_found (find p db.requests)) _ h0 in
    let (i, found) = find_sound p db.requests (or_raise-ok _ _ e) in
    let (request, f, h2) = bind-ok (only_pending row) _ h1 in
    let (same, waiting) = only_pending-ok row f in
    let w : AccessRequest = record request { status = withdrawn } in
    let eff =
      update_request-Effect row w db i waiting (ap (λ (q : AccessRequest). q.id) same) refl in
    subst (Effect db) (ok-state h2) eff
