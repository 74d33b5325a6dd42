-- ===== src/Registry/Jit/Window.antt =====
-- For how long a just-in-time grant lets its user in.
use vyuu_mcp_gateway.Prelude.{
  ℕ, ◌+◌, ◌≤◌, ◌<◌, ◌≡◌, refl, ap, sym, ◌∙◌, inl, inr, pos, String, true, false, ◌&&◌, Option, none,
  some, ◌∷◌, Memᴰ, find_sound, ◌==◌, ltb, ok, arith, Bool-cases,
}
use vyuu_mcp_gateway.Tables.{
  VirtualServer, VirtualServerGrant, user, Db, seconds, unexpired, record_admin_action,
}
use vyuu_mcp_gateway.Access.{user_has_active_grant}
use vyuu_mcp_gateway.Access.Exact.{
  Targets, itself, through, IsLive, Entitled, user_has_active_grant_exact,
}
use vyuu_mcp_gateway.Access.Rows.{DistinctIds}
use vyuu_mcp_gateway.Registry.Errors.{select_vserver}
use vyuu_mcp_gateway.Registry.Issue.{Surroundings, JitElevation, jit_grant, issue_jit_grant}
use vyuu_mcp_gateway.Registry.Jit.{auto_approved, queued, request_jit_access}
use vyuu_mcp_gateway.Registry.Jit.Passed.{request_jit_access-Passed, _validate_duration-bounds}

selected_id :
    (tenant vserver_id : ℕ) (db : Db) {v : VirtualServer}
    → select_vserver tenant vserver_id db ≡ some v
    → v.id ≡ vserver_id
unfolding select_vserver
selected_id tenant vserver_id db h =
    let (_, p) =
      find_sound (λ (v : VirtualServer). v.tenant_id == tenant && v.id == vserver_id) db.vservers
        h in
    ground arith

unexpired_before :
    (t now : ℕ) (e : Option ℕ) → now ≤ t → unexpired t e ≡ true → unexpired now e ≡ true
unexpired_before t now none h u = refl
unexpired_before t now (some x) h u = ground arith

module _ (tenant uid vserver_id : ℕ) (db db' : Db) (g : VirtualServerGrant) (expiry : ℕ)
    (rows : db'.grants ≡ g ∷ db.grants) (members : db'.memberships ≡ db.memberships)
    (keyed : DistinctIds db'.grants) (for_tenant : g.tenant_id ≡ tenant)
    (for_vserver : g.vserver_id ≡ vserver_id) (for_user : g.principal_id ≡ uid)
    (is_direct : g.principal_kind ≡ user) (not_revoked : g.revoked_at ≡ none)
    (expires : g.expires_at ≡ some expiry) where
  open_while : (t : ℕ) → t < expiry → user_has_active_grant tenant vserver_id uid t db' ≡ true
  open_while t early = (user_has_active_grant_exact tenant vserver_id uid t db' keyed).1 (
    g,
    rw rows (Memᴰ.head refl),
    record {
      same_tenant = for_tenant;
      same_vserver = for_vserver;
      not_revoked = not_revoked;
      not_expired = ground arith;
    },
    itself is_direct for_user,
  )

  Targets-before : (f : VirtualServerGrant) → Targets uid db' f → Targets uid db f
  Targets-before f (itself k e) = itself k e
  Targets-before f (through m k i u e) = through m k (rw members at i) u e

  from_before :
      (t checked_at : ℕ)
      → expiry ≤ t
      → checked_at ≤ t
      → (f : VirtualServerGrant) → Memᴰ f (g ∷ db.grants)
      → IsLive tenant vserver_id t f
      → Targets uid db' f
      → Entitled tenant vserver_id uid checked_at db
  from_before t checked_at late later f (Memᴰ.head e) live target =
      absurd (ground (arith, ap (λ (x : VirtualServerGrant). x.expires_at) e, live.not_expired))
  from_before t checked_at late later f (Memᴰ.tail m) live target = (
    f,
    m,
    record {
      same_tenant = live.same_tenant;
      same_vserver = live.same_vserver;
      not_revoked = live.not_revoked;
      not_expired = unexpired_before t checked_at f.expires_at later live.not_expired;
    },
    Targets-before f target,
  )

  shut_after :
      (t checked_at : ℕ)
      → expiry ≤ t
      → checked_at ≤ t
      → user_has_active_grant tenant vserver_id uid checked_at db ≡ false
      → user_has_active_grant tenant vserver_id uid t db' ≡ false
  shut_after t checked_at late later lacked =
      elim (Bool-cases (user_has_active_grant tenant vserver_id uid t db')) [
        | inr no_access ↦ no_access
        | inl access ↦
            let (f, m, live, target) =
              (user_has_active_grant_exact tenant vserver_id uid t db' keyed).0 access in
            let before = from_before t checked_at late later f (rw rows at m) live target in
            let had =
              (user_has_active_grant_exact tenant vserver_id uid checked_at db
                  ((rw rows at keyed).1)).1
                before in
            absurd (ground arith)
      ]

  exact_window :
      (t checked_at : ℕ)
      → checked_at ≤ t
      → user_has_active_grant tenant vserver_id uid checked_at db ≡ false
      → user_has_active_grant tenant vserver_id uid t db' ≡ ltb t expiry
  exact_window t checked_at later lacked = elim (Bool-cases (ltb t expiry)) [
    | inl early ↦ open_while t (ground arith) ∙ sym early
    | inr late ↦ shut_after t checked_at (ground arith) later lacked ∙ sym late
  ]

-- When a request for just-in-time access is granted at once and grant ids are distinct, then from
-- the moment of the check on, and with no further calls, the user has access exactly until the
-- duration asked for has passed since the grant was issued.
pub granted_window :
    (env : Surroundings) (tenant uid vserver_id n : ℕ) (why : Option String) (db db' : Db)
    (e : JitElevation) (t : ℕ)
    → request_jit_access env tenant uid vserver_id (pos n) why db ≡ ok (db', e)
    → e.granted ≡ true
    → DistinctIds db'.grants
    → env.checked_at ≤ t
    → user_has_active_grant tenant vserver_id uid t db' ≡ ltb t (env.issued_at + seconds n)
unfolding issue_jit_grant jit_grant queued record_admin_action
granted_window env tenant uid vserver_id n why db db' e t h granted keyed later =
    let p = request_jit_access-Passed env tenant uid vserver_id (pos n) why db h in
    let (is_n, _, _, _) = _validate_duration-bounds (pos n) p.vserver p.valid_duration in
    let ending = p.ending in
    let same_id = selected_id tenant vserver_id db p.selected in
    exact_window tenant uid vserver_id db db'
      (jit_grant env tenant uid p.vserver p.duration p.reason auto_approved)
      (env.issued_at + seconds n) (ground arith) (ground arith) keyed refl same_id refl refl refl
      (ground arith) t env.checked_at later p.no_access_yet
