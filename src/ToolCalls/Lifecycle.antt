-- ===== src/ToolCalls/Lifecycle.antt =====
-- src/vyuu_gateway/tool_calls/lifecycle.py: `ToolCallLifecycle`. Each stage of `handle_tool_call` is a
-- function of what the stages before it established.
pub mod Results
pub mod Response
unfoldable pub use Results.{
  Outcome, text_or, value_of, audit_event, graph_event, _audit_failure_result, _denied_result,
  _upstream_failure_result, completed,
}
unfoldable pub use Response.{
  refuses_input, mrtr_error, mrtr_decision, on_response, on_error, on_outcome, on_client,
  call_upstream, preflight_in, _strict_audit_preflight_failure, after_preflight,
}
use vyuu_mcp_gateway.Prelude.{
  ℕ, Bool, true, false, not, ◌&&◌, String, str_eq, Option, none, some, is_some, List, [], ◌∷◌, any,
  find, ◌==◌, Result, ok, raise, if◌then◌else◌, text_eq,
}
use vyuu_mcp_gateway.Prelude.Text.{join, first}
use Prim.Native.String.{◌++◌ as append}
use vyuu_mcp_gateway.Dict
use vyuu_mcp_gateway.Access.{Principal}
use vyuu_mcp_gateway.ToolCalls.{
  audit_unavailable, allowed, capabilities_not_synced, denied, identity_invalid, insufficient_scope,
  no_tool_elevation, input_required_denied, malformed_args, policy_engine_error, session_not_found,
  tool_not_in_virtual_server, upstream_error, upstream_timeout, PolicyDenyReason,
  reason_audit_unavailable, reason_capabilities_not_synced, reason_identity_invalid,
  reason_insufficient_scope, reason_malformed_args, reason_no_tool_elevation,
  reason_input_required_denied, reason_policy_engine_error, reason_tool_not_in_virtual_server,
  reason_value, PolicyDecision, allow_by_default, deny, GatewaySession, ResolvedTool,
  ResolvedToolsList, ResolveError, virtual_server_not_found, capabilities_not_synced_error,
  UpstreamStatus, upstream_ok, upstream_failed, upstream_timed_out, not_called, AuditDecision,
  audit_allow, audit_deny, AuditFailureMode, strict, continuity, monitor, EmitResult,
  AuditPrincipal, validated, of_session, unknown, ToolCallRequest, AuditEvent,
  ToolCallLifecycleResult, Action, called, audited, graphed, UpstreamOutcome, responded, timed_out,
  failed, Collaborators, ToolCallStatus,
}

-- `a or b`, for texts that may be None
module _ {A C R : Type 0} (w : Collaborators A C R) where
  checker_answer : Result String Bool → Bool
  checker_answer (ok held) = held
  checker_answer (raise e) = false

  holds_with :
      Option (ℕ → ℕ → String → String → Result String Bool)
      → Option ℕ
      → ℕ
      → String
      → Principal
      → Bool
  holds_with none vserver_id tenant tool principal = false
  holds_with (some checker) none tenant tool principal = false
  holds_with (some checker) (some vserver_id) tenant tool principal =
      if is_some (w.parse_uuid principal.id)
      then checker_answer (checker tenant vserver_id tool principal.id)
      else false

  unfoldable pub _holds_tool_elevation : ℕ → Option ℕ → String → Principal → Bool
  unfolding holds_with checker_answer
  _holds_tool_elevation tenant vserver_id tool principal =
      holds_with w.elevation_checker vserver_id tenant tool principal

  unfoldable pub on_decision :
      ToolCallRequest A C R
      → GatewaySession
      → Principal
      → ResolvedTool
      → Result String PolicyDecision
      → Outcome w
  on_decision request session principal tool (raise name) =
      _denied_result w policy_engine_error request
        (deny reason_policy_engine_error "policy engine error") (some session) (some principal)
        (some tool) (some "policy_engine_error") (some name)
  on_decision request session principal tool (ok decision) =
      if decision.is_allowed
      then after_preflight w request session principal tool decision
          (_strict_audit_preflight_failure w)
      else _denied_result w denied request decision (some session) (some principal) (some tool)
          (text_or decision.rule_id (value_of decision.reason)) none

  unfoldable pub on_arguments :
      ToolCallRequest A C R → GatewaySession → Principal → ResolvedTool → Option String → Outcome w
  on_arguments request session principal tool (some message) =
      _denied_result w malformed_args request (deny reason_malformed_args message) (some session)
        (some principal) (some tool) (some "malformed_args") none
  on_arguments request session principal tool none = on_decision request session principal tool (
      w.evaluate_tool_call session.tenant_id session.vserver_name tool request.arguments
        session.policy_id)

  -- The scope gate, the elevation gate and all that follows, for a tool that the virtual server exposes.
  abbrev pub lacks_scope : Principal → Option String → Bool
  lacks_scope principal none = false
  lacks_scope principal (some scope) = not (any (λ s. str_eq s scope) principal.scopes)

  abbrev or_empty : Option String → String
  or_empty none = ""
  or_empty (some s) = s

  abbrev pub lacks_elevation : GatewaySession → Principal → ResolvedToolsList → ResolvedTool → Bool
  lacks_elevation session principal list tool =
      is_some (Dict.get list.jit_tools tool.exposed_name)
      && not (_holds_tool_elevation session.tenant_id list.vserver_id tool.exposed_name principal)

  unfoldable pub on_tool :
      ToolCallRequest A C R
      → GatewaySession
      → Principal
      → ResolvedToolsList
      → ResolvedTool
      → Outcome w
  on_tool request session principal list tool =
      let scope = Dict.get list.required_scopes tool.exposed_name in
      if lacks_scope principal scope
      then _denied_result w insufficient_scope request
          (deny reason_insufficient_scope (append "tool requires scope " (w.repr (or_empty scope))))
          (some session) (some principal) (some tool) (some "insufficient_scope") none
      else if lacks_elevation session principal list tool
      then _denied_result w no_tool_elevation request
          (deny reason_no_tool_elevation "tool requires an active just-in-time elevation")
          (some session) (some principal) (some tool) (some "no_tool_elevation") none
      else on_arguments request session principal tool (w.schema_error tool request.arguments)

  unfoldable pub on_found :
      ToolCallRequest A C R
      → GatewaySession
      → Principal
      → ResolvedToolsList
      → Option ResolvedTool
      → Outcome w
  on_found request session principal list none =
      _denied_result w tool_not_in_virtual_server request
        (deny reason_tool_not_in_virtual_server "tool is not exposed by virtual server")
        (some session) (some principal) none (some "tool_not_in_virtual_server") none
  on_found request session principal list (some tool) = on_tool request session principal list tool

  unfoldable pub on_resolved :
      ToolCallRequest A C R
      → GatewaySession
      → Principal
      → Result ResolveError ResolvedToolsList
      → Outcome w
  on_resolved request session principal (raise virtual_server_not_found) =
      _denied_result w tool_not_in_virtual_server request
        (deny reason_tool_not_in_virtual_server "virtual server was not found in tenant")
        (some session) (some principal) none (some "tool_not_in_virtual_server") none
  on_resolved request session principal (raise (capabilities_not_synced_error text)) =
      _denied_result w capabilities_not_synced request (deny reason_capabilities_not_synced text)
        (some session) (some principal) none (some "capabilities_not_synced") (some text)
  on_resolved request session principal (ok list) =
      on_found request session principal list
        (find (λ tool. str_eq tool.exposed_name request.tool_name) list.tools)

  unfoldable pub on_principal :
      ToolCallRequest A C R → GatewaySession → Result String Principal → Outcome w
  on_principal request session (raise name) =
      _denied_result w identity_invalid request
        (deny reason_identity_invalid "identity validation failed") (some session) none none
        (some "identity_invalid") (some name)
  on_principal request session (ok principal) =
      on_resolved request session principal (w.resolve_tools session.tenant_id session.vserver_name)

  unfoldable pub no_session : ToolCallRequest A C R → Outcome w
  no_session request =
      _denied_result w session_not_found request
        (deny reason_tool_not_in_virtual_server "session was not found in tenant") none none none
        (some "session_not_found") none

  unfoldable pub on_session : ToolCallRequest A C R → Option GatewaySession → Outcome w
  on_session request none = no_session request
  on_session request (some session) =
      if session.tenant_id == request.tenant_id
      then on_principal request session
          (w.validate_principal session.tenant_id request.identity_credentials)
      else no_session request

  abbrev pub session_of : ToolCallRequest A C R → Option GatewaySession
  session_of request = elim request.session [
    | some s ↦ some s
    | none ↦ w.get_session request.tenant_id request.session_id
  ]

  unfoldable pub handle_tool_call : ToolCallRequest A C R → Outcome w
  unfolding on_session on_principal on_resolved on_found on_tool on_arguments on_decision
      after_preflight no_session _denied_result call_upstream
  handle_tool_call request = on_session request (session_of request)
