-- ===== src/Registry/Approvals/Effects.antt =====
-- The decisions of an operator by their effect on the tables.
use vyuu_mcp_gateway.Prelude.{
  ℕ, ℤ, ◌≡◌, refl, ap, sym, ◌∙◌, subst, List, ◌⊎◌, inl, inr, true, String, Option, none, some, ◌∷◌,
  map, map_complete, Memᴰ, ok, ◌>>=◌, bind-ok, ok-state, arith, Bool-cases,
}
use vyuu_mcp_gateway.Dict.{Dict}
use vyuu_mcp_gateway.Tables.{
  VirtualServerToolGrant, AccessRequest, is_pending, approved, AdminAuditActor, DetailValue,
  record_admin_action, Db,
}
use vyuu_mcp_gateway.Access.{user_has_active_grant}
use vyuu_mcp_gateway.Registry.Issue.{Surroundings, issue_tool_elevation_for_request}
use vyuu_mcp_gateway.Registry.Effects.{Effect, RequestsStep, GrantsStep, Asked, rewritten}
use vyuu_mcp_gateway.Registry.Requests.{update_request, _load_pending}
use vyuu_mcp_gateway.Registry.Requests.Effects.{_load_pending-ok, update_request-Effect}
use vyuu_mcp_gateway.Registry.Approvals.{
  audit_if, decide, truthy_or, tool_duration, actor_or_system, approve_tool, approved_grant,
  create_grant, approve_vserver, approve_loaded, approve_access_request, decline_access_request,
  _approved_expiry,
}

-- Audit rows change no other table.
audit_if-Effect :
    (tenant : ℕ) (actor : Option AdminAuditActor) (action : String) (q : AccessRequest)
    (detail : Dict String DetailValue) {before : Db} (db : Db)
    → Effect before db
    → Effect before (audit_if tenant actor action q detail db)
unfolding audit_if record_admin_action
audit_if-Effect tenant none action q detail db e = e
audit_if-Effect tenant (some a) action q detail db e = record {
  requests = e.requests;
  grants = e.grants;
}

pub decline_access_request-Effect :
    (env : Surroundings) (tenant request_id op : ℕ) (note : String) (actor : Option AdminAuditActor)
    (db : Db) {out : Db × AccessRequest}
    → decline_access_request env tenant request_id op note actor db ≡ ok out
    → Effect db out.0
unfolding decline_access_request decide
decline_access_request-Effect env tenant request_id op note actor db h =
    let (q, loaded, h1) = bind-ok (_load_pending tenant request_id db) _ h in
    let (i, waiting, _, _) = _load_pending-ok tenant request_id db loaded in
    subst (Effect db) (ok-state h1)
      (audit_if-Effect tenant actor _ q _ _ (update_request-Effect q _ db i waiting refl refl))

-- No expiry means that no duration was asked for.
expiry_none :
    (env : Surroundings) (tenant : ℕ) (q : AccessRequest) (d : Option ℤ) (db : Db)
    → _approved_expiry env tenant q d db ≡ ok none
    → q.requested_duration_seconds ≡ none
unfolding _approved_expiry
expiry_none env tenant q d db h = ground arith

-- How `create_grant` ends: no grant is added, or one with the expiry that `_approved_expiry` gave.
abbrev Created : Surroundings → ℕ → ℕ → Option ℤ → AccessRequest → Db → Db × Option ℕ → Type 0
Created env tenant op d q db out =
    (out.0.grants ≡ db.grants)
    ⊎ ((expiry : Option ℕ) × (_approved_expiry env tenant q d db ≡ ok expiry)
        × (out.0.grants ≡ approved_grant env tenant op q expiry ∷ db.grants)
        × (out.1 ≡ some env.fresh_id))

create_grant-Created :
    (env : Surroundings) (tenant op : ℕ) (d : Option ℤ) (q : AccessRequest) (db : Db)
    {out : Db × Option ℕ}
    → create_grant env tenant op d q db ≡ ok out
    → (out.0.requests ≡ db.requests) × Created env tenant op d q db out
unfolding create_grant approved_grant
create_grant-Created env tenant op d q db {out} h =
    elim (Bool-cases (user_has_active_grant tenant q.vserver_id q.user_id env.checked_at db)) [
      | inl has ↦ (ground arith, inl (ground arith))
      | inr lacks ↦
          let h0 : (_approved_expiry env tenant q d db >>= λ t.
          ok (
            record db { grants = approved_grant env tenant op q t ∷ db.grants },
            some env.fresh_id,
          ))
              ≡ ok out =
            rw lacks at h in
          let (expiry, e, h1) = bind-ok (_approved_expiry env tenant q d db) _ h0 in
          let state = ok-state h1 in
          (
            ap (λ (x : Db). x.requests) (sym state),
            inr (expiry, e, ap (λ (x : Db). x.grants) (sym state), ground (arith, h1)),
          )
    ]

-- The approved row stands where the request stood.
written-Memᴰ :
    (q row : AccessRequest) (qs : List AccessRequest)
    → row.id ≡ q.id
    → Memᴰ q qs
    → Memᴰ row (map (rewritten row) qs)
written-Memᴰ q row qs same m =
    subst (λ x. Memᴰ x (map (rewritten row) qs)) (ground arith) (map_complete (rewritten row) qs m)

approved_grant-Asked :
    (env : Surroundings) (tenant op : ℕ) (d : Option ℤ) (q : AccessRequest)
    (expiry grant_id : Option ℕ) (db : Db)
    → Memᴰ q db.requests
    → is_pending q.status ≡ true
    → q.exposed_tool_name ≡ none
    → _approved_expiry env tenant q d db ≡ ok expiry
    → grant_id ≡ some env.fresh_id
    → (approved_grant env tenant op q expiry).expires_at ≡ none
    → Asked db.requests
        (map (rewritten (decide q approved env op grant_id)) db.requests)
        (approved_grant env tenant op q expiry)
unfolding approved_grant decide
approved_grant-Asked env tenant op d q expiry grant_id db i waiting no_tool gave named forever =
    record {
      request = q;
      row = decide q approved env op grant_id;
      waiting = i;
      was_pending = waiting;
      by_user = refl;
      for_vserver = refl;
      names_no_tool = no_tool;
      asks_no_duration = expiry_none env tenant q d db (gave ∙ ap ok forever);
      written = written-Memᴰ q (decide q approved env op grant_id) db.requests refl i;
      same_request = refl;
      is_approved = refl;
      names_grant = named;
      same_operator = refl;
    }

Created-GrantsStep :
    (env : Surroundings) (tenant op : ℕ) (d : Option ℤ) (q : AccessRequest) (db : Db)
    (out : Db × Option ℕ)
    → Memᴰ q db.requests
    → is_pending q.status ≡ true
    → q.exposed_tool_name ≡ none
    → Created env tenant op d q db out
    → GrantsStep db.requests
        (map (rewritten (decide q approved env op out.1)) db.requests)
        db.grants
        out.0.grants
Created-GrantsStep env tenant op d q db out i waiting no_tool (inl kept) = GrantsStep.kept kept
Created-GrantsStep env tenant op d q db out i waiting no_tool (inr (expiry, gave, added, named)) =
    GrantsStep.issued (approved_grant env tenant op q expiry)
      (approved_grant-Asked env tenant op d q expiry out.1 db i waiting no_tool gave named) added

approve_vserver-Effect :
    (env : Surroundings) (tenant op : ℕ) (d : Option ℤ) (actor : Option AdminAuditActor)
    (q : AccessRequest) (db : Db) {out : Db × AccessRequest}
    → Memᴰ q db.requests
    → is_pending q.status ≡ true
    → q.exposed_tool_name ≡ none
    → approve_vserver env tenant op d actor q db ≡ ok out
    → Effect db out.0
unfolding approve_vserver decide update_request
approve_vserver-Effect env tenant op d actor q db i waiting no_tool h =
    let (created, e, h1) = bind-ok (create_grant env tenant op d q db) _ h in
    let (same, ending) = create_grant-Created env tenant op d q db e in
    let row = decide q approved env op created.1 in
    let rows = ap (map (rewritten row)) same in
    subst (Effect db) (ok-state h1) (
      audit_if-Effect tenant actor _ q _ _ (record {
        requests = RequestsStep.decided q row i waiting refl refl rows;
        grants =
            subst (λ qs. GrantsStep db.requests qs db.grants created.0.grants) (sym rows)
              (Created-GrantsStep env tenant op d q db created i waiting no_tool ending);
      }))

tool_path-kept :
    (env : Surroundings) (tenant op n : ℕ) (q : AccessRequest) (actor : AdminAuditActor) (db : Db)
    {out : Db × VirtualServerToolGrant}
    → issue_tool_elevation_for_request env tenant q op n actor db ≡ ok out
    → (out.0.requests ≡ db.requests) × (out.0.grants ≡ db.grants)
unfolding issue_tool_elevation_for_request
tool_path-kept env tenant op n q actor db h = ground arith

approve_tool-Effect :
    (env : Surroundings) (tenant op : ℕ) (d : Option ℤ) (actor : Option AdminAuditActor)
    (q : AccessRequest) (tool : String) (db : Db) {out : Db × AccessRequest}
    → Memᴰ q db.requests
    → is_pending q.status ≡ true
    → approve_tool env tenant op d actor q tool db ≡ ok out
    → Effect db out.0
unfolding approve_tool decide update_request
approve_tool-Effect env tenant op d actor q tool db i waiting h =
    let (n, _, h1) =
      bind-ok
        (tool_duration (truthy_or d q.requested_duration_seconds) q.requested_duration_seconds) _
        h in
    let (issued, e, h2) =
      bind-ok (issue_tool_elevation_for_request env tenant q op n (actor_or_system actor) db) _
        h1 in
    let (requests, grants) = tool_path-kept env tenant op n q (actor_or_system actor) db e in
    let row = decide q approved env op q.created_grant_id in
    subst (Effect db) (ok-state h2) (
      audit_if-Effect tenant actor _ q _ _ (record {
        requests =
            RequestsStep.decided q row i waiting refl refl (ap (map (rewritten row)) requests);
        grants = GrantsStep.kept grants;
      }))

approve_loaded-Effect :
    (env : Surroundings) (tenant op : ℕ) (d : Option ℤ) (actor : Option AdminAuditActor)
    (q : AccessRequest) (tool : Option String) (db : Db) {out : Db × AccessRequest}
    → Memᴰ q db.requests
    → is_pending q.status ≡ true
    → q.exposed_tool_name ≡ tool
    → approve_loaded env tenant op d actor q tool db ≡ ok out
    → Effect db out.0
unfolding approve_loaded
approve_loaded-Effect env tenant op d actor q none db i waiting named =
    approve_vserver-Effect env tenant op d actor q db i waiting named
approve_loaded-Effect env tenant op d actor q (some tool) db i waiting named =
    approve_tool-Effect env tenant op d actor q tool db i waiting

pub approve_access_request-Effect :
    (env : Surroundings) (tenant request_id op : ℕ) (d : Option ℤ) (actor : Option AdminAuditActor)
    (db : Db) {out : Db × AccessRequest}
    → approve_access_request env tenant request_id op d actor db ≡ ok out
    → Effect db out.0
unfolding approve_access_request
approve_access_request-Effect env tenant request_id op d actor db h =
    let (q, loaded, h1) = bind-ok (_load_pending tenant request_id db) _ h in
    let (i, waiting, _, _) = _load_pending-ok tenant request_id db loaded in
    approve_loaded-Effect env tenant op d actor q q.exposed_tool_name db i waiting refl h1
