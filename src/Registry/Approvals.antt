-- ===== src/Registry/Approvals.antt =====
-- src/vyuu_gateway/registry/access_requests_service.py: what an operator decides about a request.
pub mod Effects
pub mod Bounds
pub mod Tools
use vyuu_mcp_gateway.Prelude.{
  ℕ, ◌+◌, ℤ, pos, is_nonpositive, is_zero, exceeds, to_ℕ, String, str_eq, Bool, true, false, not,
  ◌&&◌, Option, none, some, List, [], ◌∷◌, ◌++◌, map, find, any, ◌==◌, is_some, Result, ok, raise,
  ◌>>=◌, ◌>>◌, raise_if, if◌then◌else◌,
}
use vyuu_mcp_gateway.Dict.{Dict}
use vyuu_mcp_gateway.Tables.{
  VirtualServer, VirtualServerGrant, VirtualServerToolGrant, AccessRequest, AccessRequestStatus,
  pending, approved, declined, withdrawn, is_pending, is_public, Db, user, operator, jit_approved,
  AdminAuditActor, by_system, AdminAuditTarget, DetailValue, null, text, ident, number, signed,
  flag, or_null, record_admin_action, seconds,
}
use vyuu_mcp_gateway.Access.{user_has_active_grant}
use vyuu_mcp_gateway.Registry.Errors.{
  RegistryError, access_request_not_found, vserver_not_found, duplicate_pending_request,
  user_already_has_access, vserver_is_public, invalid_approval_duration, wrong_request_state,
  assertion_failed, or_raise, select_vserver, _load_vserver, blank_to_none,
}
use vyuu_mcp_gateway.Registry.Issue.{Surroundings, issue_tool_elevation_for_request}
use vyuu_mcp_gateway.Registry.Requests.{update_request, _load_pending}

-- `a or b`, for an integer or None on the left
abbrev pub truthy_or : Option ℤ → Option ℕ → Option ℤ
truthy_or none none = none
truthy_or none (some r) = some (pos r)
truthy_or (some d) none = if is_zero d then none else some d
truthy_or (some d) (some r) = if is_zero d then some (pos r) else some d

-- `requested is not None and duration > requested`
abbrev pub beyond : ℤ → Option ℕ → Bool
beyond d none = false
beyond d (some r) = exceeds d r

abbrev pub or_zero : Option ℕ → ℕ
or_zero none = 0
or_zero (some r) = r

-- The guards on the duration of an approved tool elevation.
tool_duration : Option ℤ → Option ℕ → Result RegistryError ℕ
tool_duration none requested = raise (invalid_approval_duration (pos 0) 0)
tool_duration (some d) requested =
    if is_nonpositive d
    then raise (invalid_approval_duration d 0)
    else if beyond d requested
    then raise (invalid_approval_duration d (or_zero requested))
    else ok (to_ℕ d)

ceiling_of : Option VirtualServer → ℤ → Bool
ceiling_of none d = false
ceiling_of (some v) d = exceeds d v.jit_max_duration_seconds

ceiling_or_zero : Option VirtualServer → ℕ
ceiling_or_zero none = 0
ceiling_or_zero (some v) = v.jit_max_duration_seconds

-- `effective = duration_seconds if duration_seconds is not None else requested`
abbrev pub effective_duration : Option ℤ → Option ℕ → Option ℤ
effective_duration (some d) requested = some d
effective_duration none none = none
effective_duration none (some r) = some (pos r)

check_effective : Surroundings → ℕ → AccessRequest → Option ℤ → Db → Result RegistryError (Option ℕ)
check_effective env tenant request none db = ok none
check_effective env tenant request (some d) db =
    let vserver = select_vserver tenant request.vserver_id db in
    if is_nonpositive d
    then raise (invalid_approval_duration d (or_zero request.requested_duration_seconds))
    else if beyond d request.requested_duration_seconds
    then raise (invalid_approval_duration d (or_zero request.requested_duration_seconds))
    else if ceiling_of vserver d
    then raise (invalid_approval_duration d (ceiling_or_zero vserver))
    else ok (some (env.issued_at + seconds (to_ℕ d)))

unfoldable pub _approved_expiry :
    Surroundings → ℕ → AccessRequest → Option ℤ → Db → Result RegistryError (Option ℕ)
unfolding check_effective select_vserver ceiling_of ceiling_or_zero
_approved_expiry env tenant request duration db =
    check_effective env tenant request
      (effective_duration duration request.requested_duration_seconds) db

-- `if actor is not None: record_admin_action(...)`
unfoldable pub audit_if :
    ℕ → Option AdminAuditActor → String → AccessRequest → Dict String DetailValue → Db → Db
audit_if tenant none action request detail db = db
audit_if tenant (some actor) action request detail db =
    record_admin_action tenant actor action
      (record { kind = "access_request"; id = some request.id; display = none }) detail db

-- `actor or AdminAuditActor.system("access_request_approve")`
actor_or_system : Option AdminAuditActor → AdminAuditActor
actor_or_system none = by_system "access_request_approve"
actor_or_system (some actor) = actor

unfoldable pub decide :
    AccessRequest → AccessRequestStatus → Surroundings → ℕ → Option ℕ → AccessRequest
decide request status env operator_id grant_id = record request {
  status = status;
  decided_by = some operator_id;
  decided_at = some env.decided_at;
  created_grant_id = grant_id;
}

-- The branch of `approve_access_request` for a request that names a tool.
pub approve_tool :
    Surroundings
    → ℕ
    → ℕ
    → Option ℤ
    → Option AdminAuditActor
    → AccessRequest
    → String
    → Db
    → Result RegistryError (Db × AccessRequest)
approve_tool env tenant operator_id duration_seconds actor request tool db = do
  duration ←
      tool_duration (truthy_or duration_seconds request.requested_duration_seconds)
        request.requested_duration_seconds
  issued ←
      issue_tool_elevation_for_request env tenant request operator_id duration
        (actor_or_system actor) db
  let row = decide request approved env operator_id request.created_grant_id
  ok (
    audit_if tenant actor "access_request.approve" request
        (("user_id", ident request.user_id)
          ∷ ("vserver_id", ident request.vserver_id)
          ∷ ("exposed_tool_name", text tool)
          ∷ ("tool_elevation_grant_id", ident issued.1.id)
          ∷ ("requested_duration_seconds", or_null number request.requested_duration_seconds)
          ∷ ("approved_duration_seconds", number duration)
          ∷ ("justification", or_null text request.note)
          ∷ [])
        (update_request row issued.0),
    row,
  )

unfoldable pub approved_grant : Surroundings → ℕ → ℕ → AccessRequest → Option ℕ → VirtualServerGrant
approved_grant env tenant operator_id request expires_at = record {
  id = env.fresh_id;
  tenant_id = tenant;
  vserver_id = request.vserver_id;
  principal_kind = user;
  principal_id = request.user_id;
  granted_by = some operator_id;
  granted_via = if is_some expires_at then jit_approved else operator;
  justification = request.note;
  expires_at = expires_at;
  revoked_at = none;
}

-- The grant that an approval creates, unless the user has access already.
unfoldable pub create_grant :
    Surroundings → ℕ → ℕ → Option ℤ → AccessRequest → Db → Result RegistryError (Db × Option ℕ)
create_grant env tenant operator_id duration_seconds request db =
    if user_has_active_grant tenant request.vserver_id request.user_id env.checked_at db
    then ok (db, none)
    else do
      expires_at ← _approved_expiry env tenant request duration_seconds db
      let grant = approved_grant env tenant operator_id request expires_at
      ok (record db { grants = grant ∷ db.grants }, some grant.id)

unfoldable pub approve_vserver :
    Surroundings
    → ℕ
    → ℕ
    → Option ℤ
    → Option AdminAuditActor
    → AccessRequest
    → Db
    → Result RegistryError (Db × AccessRequest)
approve_vserver env tenant operator_id duration_seconds actor request db = do
  created ← create_grant env tenant operator_id duration_seconds request db
  let row = decide request approved env operator_id created.1
  ok (
    audit_if tenant actor "access_request.approve" request
        (("user_id", ident request.user_id)
          ∷ ("vserver_id", ident request.vserver_id)
          ∷ ("grant_created", flag (is_some created.1))
          ∷ ("grant_id", or_null ident created.1)
          ∷ ("requested_duration_seconds", or_null number request.requested_duration_seconds)
          ∷ ("approved_duration_seconds", or_null signed duration_seconds)
          ∷ ("justification", or_null text request.note)
          ∷ [])
        (update_request row created.0),
    row,
  )

unfoldable pub approve_loaded :
    Surroundings
    → ℕ
    → ℕ
    → Option ℤ
    → Option AdminAuditActor
    → AccessRequest
    → Option String
    → Db
    → Result RegistryError (Db × AccessRequest)
approve_loaded env tenant operator_id duration_seconds actor request none db =
    approve_vserver env tenant operator_id duration_seconds actor request db
approve_loaded env tenant operator_id duration_seconds actor request (some tool) db =
    approve_tool env tenant operator_id duration_seconds actor request tool db

unfoldable pub approve_access_request :
    Surroundings
    → ℕ
    → ℕ
    → ℕ
    → Option ℤ
    → Option AdminAuditActor
    → Db
    → Result RegistryError (Db × AccessRequest)
approve_access_request env tenant request_id operator_id duration_seconds actor db = do
  request ← _load_pending tenant request_id db
  approve_loaded env tenant operator_id duration_seconds actor request request.exposed_tool_name db

pub decline_access_request :
    Surroundings
    → ℕ
    → ℕ
    → ℕ
    → String
    → Option AdminAuditActor
    → Db
    → Result RegistryError (Db × AccessRequest)
decline_access_request env tenant request_id operator_id decision_note actor db = do
  request ← _load_pending tenant request_id db
  let row : AccessRequest =
      record (decide request declined env operator_id request.created_grant_id) {
        decision_note = blank_to_none decision_note;
      }
  ok (
    audit_if tenant actor "access_request.decline" request
        (("user_id", ident request.user_id)
          ∷ ("vserver_id", ident request.vserver_id)
          ∷ ("decision_note", or_null text (blank_to_none decision_note))
          ∷ [])
        (update_request row db),
    row,
  )
