-- ===== src/Registry/Jit/Effects.antt =====
-- The calls of jit_service.py by their effect on the tables.
use vyuu_mcp_gateway.Prelude.{
  ℕ, ℤ, ◌≡◌, refl, subst, inl, inr, not, ◌&&◌, Bool, true, String, Option, some, List, ok, ◌>>=◌,
  raise_if, bind-ok, ok-state, arith, Bool-cases, if◌then◌else◌, text_eq,
}
use vyuu_mcp_gateway.Dict
use vyuu_mcp_gateway.Tables.{
  VirtualServer, AccessRequest, AdminAuditActor, Db, record_admin_action, is_pending, is_public,
}
use vyuu_mcp_gateway.Access.{user_has_active_grant}
use vyuu_mcp_gateway.Registry.Errors.{
  _load_vserver, or_raise, tool_not_jit_eligible, vserver_access_required, vserver_is_public,
  _validate_tool_duration, _validate_justification,
}
use vyuu_mcp_gateway.Registry.Issue.{
  Surroundings, JitElevation, issue_jit_grant, _issue_tool_elevation,
}
use vyuu_mcp_gateway.Registry.Effects.{Effect, RequestsStep, GrantsStep}
use vyuu_mcp_gateway.Registry.Requests.{insert_pending, pending_request}
use vyuu_mcp_gateway.Registry.Requests.Effects.{insert_pending-Effect}
use vyuu_mcp_gateway.Registry.Jit.{
  auto_approved, queued, request_jit_access, request_tool_elevation, update_vserver,
  checked_ceiling, clean_tools, configure_vserver_jit, configure_vserver_jit_tools,
}
use vyuu_mcp_gateway.Registry.Jit.Passed.{request_jit_access-Passed}

queue-Effect :
    (r : AccessRequest) (db : Db) {out : Db × JitElevation}
    → is_pending r.status ≡ true
    → (insert_pending r db >>= λ q. ok (queued q)) ≡ ok out
    → Effect db out.0
unfolding queued
queue-Effect r db p h =
    let (q, e, h1) = bind-ok (insert_pending r db) _ h in
    subst (Effect db) (ok-state h1) (insert_pending-Effect r db p e)

pub request_jit_access-Effect :
    (env : Surroundings) (tenant uid vserver_id : ℕ) (d : ℤ) (why : Option String) (db : Db)
    {out : Db × JitElevation}
    → request_jit_access env tenant uid vserver_id d why db ≡ ok out
    → Effect db out.0
unfolding issue_jit_grant pending_request
request_jit_access-Effect env tenant uid vserver_id d why db h =
    let p = request_jit_access-Passed env tenant uid vserver_id d why db h in
    elim (Bool-cases p.vserver.jit_auto_approve) [
      | inl auto ↦ subst (Effect db) (ok-state (rw auto at p.ending)) (record {
        requests = RequestsStep.kept refl;
        grants = GrantsStep.issued _ (λ e. absurd (ground arith)) refl;
      })
      | inr manual ↦ queue-Effect _ db refl (rw manual at p.ending)
    ]

-- What `request_tool_elevation` has checked when it returns, and how it ends.
pub record ToolPassed (env : Surroundings) (tenant uid vserver_id : ℕ) (tool : String) (d : ℤ)
    (why : Option String) (db : Db) (r : Db × JitElevation) : Type 0 where
  pub vserver : VirtualServer
  pub ceiling : ℕ
  pub duration : ℕ
  pub reason : Option String
  pub loaded : _load_vserver tenant vserver_id db ≡ ok vserver
  pub eligible : or_raise tool_not_jit_eligible (Dict.get vserver.jit_tools tool) ≡ ok ceiling
  pub has_access : user_has_active_grant tenant vserver_id uid env.checked_at db ≡ true
  pub valid_duration : _validate_tool_duration d ceiling ≡ ok duration
  pub ending :
      (if vserver.jit_auto_approve
        then ok (_issue_tool_elevation env tenant uid vserver tool duration reason auto_approved db)
        else (insert_pending
              (pending_request env.fresh_id tenant uid vserver_id reason
                (some duration)
                (some tool))
              db
            >>= λ q. ok (queued q)))
      ≡ ok r

pub request_tool_elevation-Passed :
    (env : Surroundings) (tenant uid vserver_id : ℕ) (tool : String) (d : ℤ) (why : Option String)
    (db : Db) {r : Db × JitElevation}
    → request_tool_elevation env tenant uid vserver_id tool d why db ≡ ok r
    → ToolPassed env tenant uid vserver_id tool d why db r
unfolding request_tool_elevation
request_tool_elevation-Passed env tenant uid vserver_id tool d why db h0 =
    let (v, loaded, h1) = bind-ok (_load_vserver tenant vserver_id db) _ h0 in
    let (c, eligible, h2) =
      bind-ok (or_raise tool_not_jit_eligible (Dict.get v.jit_tools tool)) _ h1 in
    let (_, a, h3) =
      bind-ok
        (raise_if (not (user_has_active_grant tenant vserver_id uid env.checked_at db))
          vserver_access_required)
        _ h2 in
    let (n, vd, h4) = bind-ok (_validate_tool_duration d c) _ h3 in
    let (reason, _, h5) = bind-ok (_validate_justification why v) _ h4 in
    record {
      vserver = v;
      ceiling = c;
      duration = n;
      reason = reason;
      loaded = loaded;
      eligible = eligible;
      has_access = ground arith;
      valid_duration = vd;
      ending = h5;
    }

pub request_tool_elevation-Effect :
    (env : Surroundings) (tenant uid vserver_id : ℕ) (tool : String) (d : ℤ) (why : Option String)
    (db : Db) {out : Db × JitElevation}
    → request_tool_elevation env tenant uid vserver_id tool d why db ≡ ok out
    → Effect db out.0
unfolding _issue_tool_elevation pending_request
request_tool_elevation-Effect env tenant uid vserver_id tool d why db h =
    let p = request_tool_elevation-Passed env tenant uid vserver_id tool d why db h in
    elim (Bool-cases p.vserver.jit_auto_approve) [
      | inl auto ↦
          subst (Effect db) (ok-state (rw auto at p.ending))
            (record { requests = RequestsStep.kept refl; grants = GrantsStep.kept refl })
      | inr manual ↦ queue-Effect _ db refl (rw manual at p.ending)
    ]

pub configure_vserver_jit-Effect :
    (tenant vserver_id : ℕ) (enabled : Bool) (d : Option ℤ) (auto why : Option Bool)
    (actor : AdminAuditActor) (db : Db) {out : Db × VirtualServer}
    → configure_vserver_jit tenant vserver_id enabled d auto why actor db ≡ ok out
    → Effect db out.0
unfolding configure_vserver_jit update_vserver record_admin_action
configure_vserver_jit-Effect tenant vserver_id enabled d auto why actor db h0 =
    let (v, _, h1) = bind-ok (_load_vserver tenant vserver_id db) _ h0 in
    let (_, _, h2) =
      bind-ok (raise_if (enabled && is_public v.visibility) vserver_is_public) _ h1 in
    let (_, _, h3) = bind-ok (checked_ceiling v.jit_max_duration_seconds d) _ h2 in
    subst (Effect db) (ok-state h3)
      (record { requests = RequestsStep.kept refl; grants = GrantsStep.kept refl })

pub configure_vserver_jit_tools-Effect :
    (tenant vserver_id : ℕ) (limits : List (String × ℤ)) (actor : AdminAuditActor) (db : Db)
    {out : Db × VirtualServer}
    → configure_vserver_jit_tools tenant vserver_id limits actor db ≡ ok out
    → Effect db out.0
unfolding configure_vserver_jit_tools update_vserver record_admin_action
configure_vserver_jit_tools-Effect tenant vserver_id limits actor db h0 =
    let (v, _, h1) = bind-ok (_load_vserver tenant vserver_id db) _ h0 in
    let (_, _, h2) = bind-ok (clean_tools limits _) _ h1 in
    subst (Effect db) (ok-state h2)
      (record { requests = RequestsStep.kept refl; grants = GrantsStep.kept refl })
