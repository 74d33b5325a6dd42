-- ===== src/ToolCalls/Lifecycle/Results.antt =====
-- src/vyuu_gateway/tool_calls/lifecycle.py: how a tool call is recorded and answered.
use vyuu_mcp_gateway.Prelude.{
  ℕ, ◌&&◌, String, str_eq, Option, none, some, List, [], ◌∷◌, ◌++◌, if◌then◌else◌, text_eq,
}
use vyuu_mcp_gateway.Access.{Principal}
use vyuu_mcp_gateway.ToolCalls.{
  audit_unavailable, allowed, upstream_error, PolicyDenyReason, reason_audit_unavailable,
  reason_value, PolicyDecision, deny, GatewaySession, ResolvedTool, UpstreamStatus, upstream_ok,
  upstream_failed, not_called, AuditDecision, audit_allow, audit_deny, AuditFailureMode, strict,
  continuity, monitor, EmitResult, AuditPrincipal, validated, of_session, unknown, ToolCallRequest,
  AuditEvent, ToolCallLifecycleResult, Action, audited, graphed, Collaborators, ToolCallStatus,
}

-- `a or b`, for texts that may be None
abbrev pub text_or : Option String → Option String → Option String
text_or none b = b
text_or (some s) b = if str_eq s "" then b else some s

abbrev pub value_of : Option PolicyDenyReason → Option String
value_of none = none
value_of (some r) = some (reason_value r)

module _ {A C R : Type 0} (w : Collaborators A C R) where
  abbrev pub Outcome : Type 0
  Outcome = List (Action A C R) × ToolCallLifecycleResult A C R

  tenant_of : Option GatewaySession → ℕ → ℕ
  tenant_of none fallback = fallback
  tenant_of (some s) fallback = s.tenant_id

  audit_principal : Option GatewaySession → Option Principal → AuditPrincipal
  audit_principal session (some p) = validated p
  audit_principal none none = unknown
  audit_principal (some s) none = of_session s

  abbrev of_opt : {B : Type 0} → Option GatewaySession → (GatewaySession → Option B) → Option B
  of_opt none f = none
  of_opt (some s) f = f s

  -- `_emit_audit` builds this event; the durations and the telemetry are left out.
  unfoldable pub audit_event :
      ToolCallRequest A C R
      → Option GatewaySession
      → Option Principal
      → PolicyDecision
      → AuditDecision
      → UpstreamStatus
      → Option ℕ
      → Option String
      → Option A
      → Option R
      → AuditEvent A C R
  unfolding tenant_of audit_principal
  audit_event request session principal decision audit_decision status server rule raw_args
        raw_response =
      record {
        tenant_id = tenant_of session request.tenant_id;
        principal = audit_principal session principal;
        vserver_id = of_opt session (λ s. s.vserver_id);
        vserver_name = of_opt session (λ s. some s.vserver_name);
        upstream_server_id = server;
        tool = request.tool_name;
        arguments = request.arguments;
        decision = audit_decision;
        upstream_status = status;
        policy_id = of_opt session (λ s. s.policy_id);
        policy_rule_id = text_or rule (value_of decision.reason);
        raw_args = raw_args;
        raw_response = raw_response;
      }

  -- `_emit_graph_event`: only with a session and a validated principal.
  abbrev pub graph_event :
      Option GatewaySession → Option Principal → UpstreamStatus → List (Action A C R)
  graph_event (some s) (some p) status = graphed status ∷ []
  graph_event none p status = []
  graph_event (some s) none status = []

  unavailable : Option ℕ → Option String → EmitResult → ToolCallLifecycleResult A C R
  unavailable server tool result = record {
    status = audit_unavailable;
    decision = deny reason_audit_unavailable "audit event could not be durably queued";
    response = none;
    upstream_server_id = server;
    upstream_tool_name = tool;
    audit_emit_result = result;
    error_message = text_or result.reason (some "audit event could not be durably queued");
  }

  failure_in :
      AuditFailureMode
      → EmitResult
      → Option ℕ
      → Option String
      → Option (ToolCallLifecycleResult A C R)
  failure_in monitor result server tool = none
  failure_in continuity result server tool = none
  failure_in strict result server tool =
      if result.accepted && result.durable then none else some (unavailable server tool result)

  unfoldable pub _audit_failure_result :
      EmitResult → Option ℕ → Option String → Option (ToolCallLifecycleResult A C R)
  unfolding failure_in unavailable
  _audit_failure_result result server tool = failure_in w.audit_failure_mode result server tool

  or_else :
      Option (ToolCallLifecycleResult A C R)
      → ToolCallLifecycleResult A C R
      → ToolCallLifecycleResult A C R
  or_else none r = r
  or_else (some failure) r = failure

  server_of : Option ResolvedTool → Option ℕ
  server_of none = none
  server_of (some tool) = some tool.upstream_server_id

  unfoldable pub _denied_result :
      ToolCallStatus
      → ToolCallRequest A C R
      → PolicyDecision
      → Option GatewaySession
      → Option Principal
      → Option ResolvedTool
      → Option String
      → Option String
      → Outcome
  unfolding audit_event _audit_failure_result or_else server_of
  _denied_result status request decision session principal tool rule error =
      let event =
        audit_event request session principal decision audit_deny not_called (server_of tool) rule
          none none in
      let result = w.emit_nowait [] event in
      (
        audited event ∷ graph_event session principal not_called,
        or_else (_audit_failure_result result (server_of tool) none) (record {
          status = status;
          decision = decision;
          response = none;
          upstream_server_id = server_of tool;
          upstream_tool_name = none;
          audit_emit_result = result;
          error_message = text_or error decision.message;
        }),
      )

  -- The end of a call that the policy allowed, after what was sent to the upstream: the audit event, the event for the graph, and the result
  -- unless the audit failed. `_upstream_failure_result` and the successful end of `handle_tool_call`.
  abbrev finish :
      ToolCallRequest A C R
      → GatewaySession
      → Principal
      → ResolvedTool
      → List (Action A C R)
      → PolicyDecision
      → AuditDecision
      → UpstreamStatus
      → Option String
      → Option A
      → Option R
      → (EmitResult → ToolCallLifecycleResult A C R)
      → Outcome
  finish request session principal tool sent decision audit_decision status rule raw_args
        raw_response result_of =
      let event =
        audit_event request (some session) (some principal) decision audit_decision status
          (some tool.upstream_server_id) rule raw_args raw_response in
      let result = w.emit_nowait sent event in
      (
        sent ++ (audited event ∷ graph_event (some session) (some principal) status),
        or_else
            (_audit_failure_result result (some tool.upstream_server_id)
              (some tool.upstream_tool_name))
            (result_of result),
      )

  abbrev audit_of : PolicyDecision → AuditDecision
  audit_of decision = if decision.is_allowed then audit_allow else audit_deny

  unfoldable pub _upstream_failure_result :
      ToolCallStatus
      → ToolCallRequest A C R
      → GatewaySession
      → Principal
      → ResolvedTool
      → List (Action A C R)
      → UpstreamStatus
      → String
      → PolicyDecision
      → Option String
      → Outcome
  unfolding audit_event _audit_failure_result or_else
  _upstream_failure_result status request session principal tool sent upstream_status error decision
        rule =
      finish request session principal tool sent decision (audit_of decision) upstream_status rule
        none none
        (λ result. record {
          status = status;
          decision = decision;
          response = none;
          upstream_server_id = some tool.upstream_server_id;
          upstream_tool_name = some tool.upstream_tool_name;
          audit_emit_result = result;
          error_message = some error;
        })

  -- The successful end, with the response of the upstream.
  unfoldable pub completed :
      ToolCallRequest A C R
      → GatewaySession
      → Principal
      → ResolvedTool
      → Action A C R
      → PolicyDecision
      → R
      → Outcome
  unfolding audit_event _audit_failure_result or_else
  completed request session principal tool call decision response =
      let error = w.result_is_error response in
      finish request session principal tool (call ∷ []) decision audit_allow
        (if error then upstream_failed else upstream_ok) decision.rule_id
        (if decision.capture_raw_args then some request.arguments else none)
        (if decision.capture_raw_response then some response else none)
        (λ result. record {
          status = if error then upstream_error else allowed;
          decision = decision;
          response = some response;
          upstream_server_id = some tool.upstream_server_id;
          upstream_tool_name = some tool.upstream_tool_name;
          audit_emit_result = result;
          error_message = if error then some "upstream returned an MCP tool error" else none;
        })
