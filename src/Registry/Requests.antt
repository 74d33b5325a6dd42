-- ===== src/Registry/Requests.antt =====
-- src/vyuu_gateway/registry/access_requests_service.py: the queue of access requests.
pub mod Effects
use vyuu_mcp_gateway.Prelude.{
  ℕ, ◌+◌, ℤ, pos, is_nonpositive, is_zero, exceeds, to_ℕ, String, str_eq, Bool, true, false, not,
  ◌&&◌, Option, none, some, List, [], ◌∷◌, ◌++◌, map, find, any, ◌==◌, is_some, Result, ok, raise,
  ◌>>=◌, ◌>>◌, raise_if, if◌then◌else◌,
}
use vyuu_mcp_gateway.Dict.{Dict}
use vyuu_mcp_gateway.Tables.{
  VirtualServer, VirtualServerGrant, VirtualServerToolGrant, AccessRequest, AccessRequestStatus,
  pending, approved, declined, withdrawn, is_pending, is_public, Db, user, operator, jit_approved,
  AdminAuditActor, by_system, AdminAuditTarget, DetailValue, null, text, ident, number, signed,
  flag, or_null, record_admin_action, seconds,
}
use vyuu_mcp_gateway.Access.{user_has_active_grant}
use vyuu_mcp_gateway.Registry.Errors.{
  RegistryError, access_request_not_found, vserver_not_found, duplicate_pending_request,
  user_already_has_access, vserver_is_public, invalid_approval_duration, wrong_request_state,
  assertion_failed, or_raise, select_vserver, _load_vserver, blank_to_none,
}
use vyuu_mcp_gateway.Registry.Issue.{Surroundings, issue_tool_elevation_for_request}

-- `COALESCE(exposed_tool_name, '')`
abbrev pub coalesced : Option String → String
coalesced none = ""
coalesced (some tool) = tool

-- The partial unique index `access_requests_one_pending_per_target`, as the migrations leave it
-- (migrations/versions/20260825_0020_jit_tool_elevation.py).
unfoldable pub has_pending : ℕ → ℕ → Option String → Db → Bool
has_pending uid vserver_id tool db =
    any
      (λ q.
        is_pending q.status
        && q.user_id == uid
        && q.vserver_id == vserver_id
        && str_eq (coalesced q.exposed_tool_name) (coalesced tool))
      db.requests

-- `db.add(request); db.commit()`, for a pending request.
unfoldable pub insert_pending : AccessRequest → Db → Result RegistryError (Db × AccessRequest)
unfolding has_pending
insert_pending request db =
    if has_pending request.user_id request.vserver_id request.exposed_tool_name db
    then raise duplicate_pending_request
    else ok (record db { requests = request ∷ db.requests }, request)

unfoldable pub pending_request :
    ℕ → ℕ → ℕ → ℕ → Option String → Option ℕ → Option String → AccessRequest
pending_request id tenant uid vserver_id note duration tool = record {
  id = id;
  tenant_id = tenant;
  user_id = uid;
  vserver_id = vserver_id;
  status = pending;
  note = note;
  requested_duration_seconds = duration;
  exposed_tool_name = tool;
  decision_note = none;
  decided_by = none;
  decided_at = none;
  created_grant_id = none;
}

pub submit_access_request :
    Surroundings → ℕ → ℕ → ℕ → Option String → Db → Result RegistryError (Db × AccessRequest)
submit_access_request env tenant uid vserver_id note db = do
  vserver ← _load_vserver tenant vserver_id db
  raise_if (is_public vserver.visibility) vserver_is_public
  raise_if (user_has_active_grant tenant vserver_id uid env.checked_at db) user_already_has_access
  insert_pending (pending_request env.fresh_id tenant uid vserver_id note none none) db

-- The row with this primary key, written anew.
unfoldable pub update_request : AccessRequest → Db → Db
update_request row db = record db {
  requests = map (λ q. if q.id == row.id then row else q) db.requests;
}

-- `if request.status != PENDING: raise WrongRequestStateError`
unfoldable pub only_pending : AccessRequest → Result RegistryError AccessRequest
only_pending q = if is_pending q.status then ok q else raise (wrong_request_state q.status)

pub withdraw_access_request : ℕ → ℕ → ℕ → Db → Result RegistryError (Db × AccessRequest)
withdraw_access_request tenant uid request_id db = do
  row ←
      or_raise access_request_not_found
        (find (λ q. q.tenant_id == tenant && q.user_id == uid && q.id == request_id) db.requests)
  request ← only_pending row
  let withdrawn_row : AccessRequest = record request { status = withdrawn }
  ok (update_request withdrawn_row db, withdrawn_row)

unfoldable pub _load_pending : ℕ → ℕ → Db → Result RegistryError AccessRequest
unfolding only_pending
_load_pending tenant request_id db = do
  row ←
      or_raise access_request_not_found
        (find (λ q. q.tenant_id == tenant && q.id == request_id) db.requests)
  only_pending row
