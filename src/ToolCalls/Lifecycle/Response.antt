-- ===== src/ToolCalls/Lifecycle/Response.antt =====
-- src/vyuu_gateway/tool_calls/lifecycle.py: the strict-mode preflight, the upstream call, and what becomes
-- of its outcome.
use vyuu_mcp_gateway.Prelude.{
  Bool, true, false, not, ◌&&◌, String, str_eq, Option, none, some, List, [], ◌∷◌, if◌then◌else◌,
  text_eq,
}
use vyuu_mcp_gateway.Prelude.Text.{join, first}
use Prim.Native.String.{◌++◌ as append}
use vyuu_mcp_gateway.Access.{Principal}
use vyuu_mcp_gateway.ToolCalls.{
  audit_unavailable, input_required_denied, upstream_error, upstream_timeout,
  reason_audit_unavailable, reason_input_required_denied, PolicyDecision, allow_by_default, deny,
  GatewaySession, ResolvedTool, upstream_failed, upstream_timed_out, AuditFailureMode, strict,
  continuity, monitor, ToolCallRequest, Action, called, UpstreamError, UpstreamOutcome, responded,
  raised, timed_out, failed, Collaborators,
}
-- `a or b`, for texts that may be None
use vyuu_mcp_gateway.ToolCalls.Lifecycle.Results.{Outcome, _upstream_failure_result, completed}

module _ {A C R : Type 0} (w : Collaborators A C R) where
  unfoldable pub refuses_input : R → Bool
  refuses_input response =
      w.is_input_required response && not (w.evaluate_input_requests response).allowed

  -- The message and the decision of an input-required round that the policy refuses.
  abbrev pub mrtr_error : R → String
  mrtr_error response = first 200 (
      append "upstream requested additional input that policy does not permit: "
        (join ", " (w.evaluate_input_requests response).kinds))

  abbrev pub mrtr_decision : R → PolicyDecision
  mrtr_decision response =
      let reasons = first 300 (join "; " (w.evaluate_input_requests response).denied_reasons) in
      deny reason_input_required_denied
        (if str_eq reasons "" then "input-required round refused" else reasons)

  unfoldable pub on_response :
      ToolCallRequest A C R
      → GatewaySession
      → Principal
      → ResolvedTool
      → Action A C R
      → PolicyDecision
      → R
      → Outcome w
  unfolding _upstream_failure_result completed refuses_input
  on_response request session principal tool call decision response =
      if refuses_input response
      then _upstream_failure_result w input_required_denied request session principal tool
          (call ∷ []) upstream_failed (mrtr_error response) (mrtr_decision response)
          (some "input_required_denied")
      else completed w request session principal tool call decision response

  -- The two `except` clauses, after what was sent to the upstream.
  unfoldable pub on_error :
      ToolCallRequest A C R
      → GatewaySession
      → Principal
      → ResolvedTool
      → List (Action A C R)
      → UpstreamError
      → Outcome w
  on_error request session principal tool sent (timed_out name) =
      _upstream_failure_result w upstream_timeout request session principal tool sent
        upstream_timed_out name allow_by_default none
  on_error request session principal tool sent (failed name text) =
      _upstream_failure_result w upstream_error request session principal tool sent upstream_failed
        (first 200 (append name (append ": " text))) allow_by_default none

  unfoldable pub on_outcome :
      ToolCallRequest A C R
      → GatewaySession
      → Principal
      → ResolvedTool
      → Action A C R
      → PolicyDecision
      → UpstreamOutcome A C R
      → Outcome w
  on_outcome request session principal tool call decision (responded response) =
      on_response request session principal tool call decision response
  on_outcome request session principal tool call decision (raised error) =
      on_error request session principal tool (call ∷ []) error

  -- `get_client` raises, or the client that it returns is called.
  unfoldable pub on_client :
      ToolCallRequest A C R
      → GatewaySession
      → Principal
      → ResolvedTool
      → PolicyDecision
      → Option UpstreamError
      → Outcome w
  unfolding on_outcome on_response on_error
  on_client request session principal tool decision (some error) =
      on_error request session principal tool [] error
  on_client request session principal tool decision none =
      let uid = w.parse_uuid principal.id in
      on_outcome request session principal tool
        (called tool.upstream_server_id tool.upstream_tool_name request.arguments uid) decision
        (w.call_tool session.tenant_id tool.upstream_server_id tool.upstream_tool_name
          request.arguments uid)

  unfoldable pub call_upstream :
      ToolCallRequest A C R → GatewaySession → Principal → ResolvedTool → PolicyDecision → Outcome w
  unfolding on_client
  call_upstream request session principal tool decision =
      on_client request session principal tool decision
        (w.get_client session.tenant_id tool.upstream_server_id)

  preflight_reason : Option Bool → Option String
  preflight_reason none = some "audit emitter does not expose durable queue availability"
  preflight_reason (some false) = some "audit emitter cannot durably queue events"
  preflight_reason (some true) = none

  unfoldable pub preflight_in : AuditFailureMode → Option String
  unfolding preflight_reason
  preflight_in strict = preflight_reason w.can_durably_accept_now
  preflight_in monitor = none
  preflight_in continuity = none

  -- `_strict_audit_preflight_failure`: the reason, if the call must not go on.
  unfoldable pub _strict_audit_preflight_failure : Option String
  unfolding preflight_in
  _strict_audit_preflight_failure = preflight_in w.audit_failure_mode

  unfoldable pub after_preflight :
      ToolCallRequest A C R
      → GatewaySession
      → Principal
      → ResolvedTool
      → PolicyDecision
      → Option String
      → Outcome w
  after_preflight request session principal tool decision none =
      call_upstream request session principal tool decision
  after_preflight request session principal tool decision (some reason) = (
    [],
    record {
      status = audit_unavailable;
      decision = deny reason_audit_unavailable reason;
      response = none;
      upstream_server_id = some tool.upstream_server_id;
      upstream_tool_name = none;
      audit_emit_result = record {
        accepted = false;
        spooled = false;
        durable = false;
        degraded = true;
        reason = some reason;
      };
      error_message = some reason;
    },
  )
