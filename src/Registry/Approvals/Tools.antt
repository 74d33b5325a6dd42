-- ===== src/Registry/Approvals/Tools.antt =====
-- The approval of a request that names a tool.
use vyuu_mcp_gateway.Prelude.{
  ℕ, ◌+◌, ◌<◌, ◌≡◌, refl, ap, sym, ◌∙◌, ◌⊎◌, inl, inr, ℤ, pos, String, Option, none, some, ◌∷◌, ok,
  ◌>>=◌, arith, subst,
}
use vyuu_mcp_gateway.Dict.{Dict}
use vyuu_mcp_gateway.Tables.{
  DetailValue, VirtualServer, VirtualServerToolGrant, AccessRequest, AdminAuditActor, Db, seconds,
  record_admin_action,
}
use vyuu_mcp_gateway.Registry.Errors.{select_vserver, _load_vserver}
use vyuu_mcp_gateway.Registry.Issue.{
  Surroundings, tool_grant_row, _build_tool_grant, issue_tool_elevation_for_request,
}
use vyuu_mcp_gateway.Registry.Requests.{update_request, _load_pending}
use vyuu_mcp_gateway.Registry.Approvals.{
  audit_if, truthy_or, tool_duration, actor_or_system, approve_tool, approve_loaded,
  approve_access_request,
}

audit_if-tool_grants :
    (tenant : ℕ) (actor : Option AdminAuditActor) (action : String) (q : AccessRequest)
    (detail : Dict String DetailValue) (db : Db)
    → (audit_if tenant actor action q detail db).tool_grants ≡ db.tool_grants
unfolding audit_if record_admin_action
audit_if-tool_grants tenant none action q detail db = refl
audit_if-tool_grants tenant (some a) action q detail db = refl

tool_duration-default :
    (d : Option ℤ) (requested : ℕ)
    → 0 < requested
    → (d ≡ none) ⊎ (d ≡ some (pos 0))
    → tool_duration (truthy_or d (some requested)) (some requested) ≡ ok requested
unfolding tool_duration
tool_duration-default d requested positive (inl e) = rw e (ground arith)
tool_duration-default d requested positive (inr e) = rw e (ground arith)

-- What a tool elevation for a request issues.
abbrev Elevates :
    Surroundings → ℕ → AccessRequest → String → ℕ → Db × VirtualServerToolGrant → Db → Type 0
Elevates env tenant q tool n issued db =
    (issued.0.tool_grants ≡ issued.1 ∷ db.tool_grants)
    × (issued.1.exposed_tool_name ≡ tool)
    × (issued.1.principal_id ≡ q.user_id)
    × (issued.1.expires_at ≡ env.issued_at + seconds n)

elevation_issued :
    (env : Surroundings) (tenant op n : ℕ) (q : AccessRequest) (actor : AdminAuditActor)
    (tool : String) (v : VirtualServer) (db : Db)
    → q.exposed_tool_name ≡ some tool
    → select_vserver tenant q.vserver_id db ≡ some v
    → (issued : Db × VirtualServerToolGrant) × (issue_tool_elevation_for_request env tenant q op n
          actor db
        ≡ ok issued)
      × Elevates env tenant q tool n issued db
unfolding issue_tool_elevation_for_request _load_vserver _build_tool_grant tool_grant_row
    record_admin_action
elevation_issued env tenant op n q actor tool v db named found =
    rw (named, found) (_, refl, (refl, refl, refl, refl))

approve_tool-issued :
    (env : Surroundings) (tenant op n : ℕ) (d : Option ℤ) (actor : Option AdminAuditActor)
    (q : AccessRequest) (tool : String) (db : Db) (issued : Db × VirtualServerToolGrant)
    → tool_duration (truthy_or d q.requested_duration_seconds) q.requested_duration_seconds ≡ ok n
    → issue_tool_elevation_for_request env tenant q op n (actor_or_system actor) db ≡ ok issued
    → (out : Db × AccessRequest) × (approve_tool env tenant op d actor q tool db ≡ ok out)
      × (out.0.tool_grants ≡ issued.0.tool_grants)
unfolding approve_tool update_request
approve_tool-issued env tenant op n d actor q tool db issued timed did =
    rw (timed, did) (_, refl, audit_if-tool_grants tenant actor _ q _ _)

-- A pending tool request with a positive duration, on a virtual server that exists, is approved for
-- all of that duration by an approval that names no duration or the duration 0: whatever ceiling the
-- virtual server now has for the tool, whether or not the tool is still gated, and whether or not
-- the user still has access to the virtual server.
pub tool_approval_ignores_policy :
    (env : Surroundings) (tenant request_id op requested : ℕ) (d : Option ℤ)
    (actor : Option AdminAuditActor) (db : Db) (q : AccessRequest) (tool : String)
    (v : VirtualServer)
    → _load_pending tenant request_id db ≡ ok q
    → q.exposed_tool_name ≡ some tool
    → q.requested_duration_seconds ≡ some requested
    → 0 < requested
    → (d ≡ none) ⊎ (d ≡ some (pos 0))
    → select_vserver tenant q.vserver_id db ≡ some v
    → (out : Db × AccessRequest) × (g : VirtualServerToolGrant) × (approve_access_request env tenant
          request_id op d actor db
        ≡ ok out)
      × (out.0.tool_grants ≡ g ∷ db.tool_grants)
      × (g.exposed_tool_name ≡ tool)
      × (g.principal_id ≡ q.user_id)
      × (g.expires_at ≡ env.issued_at + seconds requested)
unfolding approve_access_request approve_loaded
tool_approval_ignores_policy env tenant request_id op requested d actor db q tool v loaded named
      asked positive zero_or_none found =
    let (issued, did, (added, for_tool, for_user, expiry)) =
      elevation_issued env tenant op requested q (actor_or_system actor) tool v db named found in
    let (out, approved_it, same) =
      approve_tool-issued env tenant op requested d actor q tool db issued
        (subst (λ x. tool_duration (truthy_or d x) x ≡ ok requested) (sym asked)
          (tool_duration-default d requested positive zero_or_none))
        did in
    let e : approve_loaded env tenant op d actor q q.exposed_tool_name db ≡ ok out =
      subst (λ x. approve_loaded env tenant op d actor q x db ≡ ok out) (sym named) approved_it in
    (
      out,
      issued.1,
      ap (λ m. m >>= λ r. approve_loaded env tenant op d actor r r.exposed_tool_name db) loaded ∙ e,
      same ∙ added,
      for_tool,
      for_user,
      expiry,
    )
