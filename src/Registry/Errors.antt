-- ===== src/Registry/Errors.antt =====
-- The exceptions of access_requests_service.py and jit_service.py, and the checks that both share.
use vyuu_mcp_gateway.Prelude.{
  ℕ, ◌*◌, ℤ, is_nonpositive, exceeds, to_ℕ, String, str_eq, ◌&&◌, ◌||◌, Option, none, some, find,
  ◌==◌, Result, ok, raise, if◌then◌else◌,
}
use vyuu_mcp_gateway.Prelude.Text.{strip}
use vyuu_mcp_gateway.Tables.{VirtualServer, AccessRequestStatus, Db, is_none}

pub data RegistryError : Type 0 where
  access_request_not_found vserver_not_found duplicate_pending_request : RegistryError
  user_already_has_access vserver_is_public jit_not_enabled : RegistryError
  jit_justification_required jit_invalid_duration : RegistryError
  tool_not_jit_eligible vserver_access_required : RegistryError
  jit_duration_too_long : ℕ → ℕ → RegistryError
  invalid_approval_duration : ℤ → ℕ → RegistryError
  wrong_request_state : AccessRequestStatus → RegistryError
  assertion_failed : RegistryError

-- `MAX_JIT_DURATION_SECONDS`
abbrev pub max_jit_duration_seconds : ℕ
max_jit_duration_seconds = 7 * 24 * 3600

abbrev pub or_raise : {A : Type 0} → RegistryError → Option A → Result RegistryError A
or_raise e none = raise e
or_raise e (some a) = ok a

-- `select(VirtualServer).where(tenant_id == ..., id == ...)`
unfoldable pub select_vserver : ℕ → ℕ → Db → Option VirtualServer
select_vserver tenant vserver_id db =
    find (λ v. v.tenant_id == tenant && v.id == vserver_id) db.vservers

-- `_load_vserver`
unfoldable pub _load_vserver : ℕ → ℕ → Db → Result RegistryError VirtualServer
unfolding select_vserver
_load_vserver tenant vserver_id db =
    or_raise vserver_not_found (select_vserver tenant vserver_id db)

-- `_validate_tool_duration`; `_validate_duration` is the same test against the server's ceiling.
unfoldable pub _validate_tool_duration : ℤ → ℕ → Result RegistryError ℕ
_validate_tool_duration duration ceiling =
    if is_nonpositive duration || exceeds duration max_jit_duration_seconds
    then raise jit_invalid_duration
    else if exceeds duration ceiling
    then raise (jit_duration_too_long (to_ℕ duration) ceiling)
    else ok (to_ℕ duration)

unfoldable pub _validate_duration : ℤ → VirtualServer → Result RegistryError ℕ
_validate_duration duration vserver =
    if is_nonpositive duration || exceeds duration max_jit_duration_seconds
    then raise jit_invalid_duration
    else if exceeds duration vserver.jit_max_duration_seconds
    then raise (jit_duration_too_long (to_ℕ duration) vserver.jit_max_duration_seconds)
    else ok (to_ℕ duration)

-- `x or ""`
abbrev pub or_blank : Option String → String
or_blank none = ""
or_blank (some s) = s

-- `s or None`
abbrev pub blank_to_none : String → Option String
blank_to_none s = if str_eq s "" then none else some s

unfoldable pub _validate_justification :
    Option String → VirtualServer → Result RegistryError (Option String)
_validate_justification justification vserver =
    let cleaned = blank_to_none (strip (or_blank justification)) in
    if vserver.jit_require_justification && is_none cleaned
    then raise jit_justification_required
    else ok cleaned
