-- ===== src/ToolCalls/Gates/Upstream.antt =====
-- How a tool call of tool_calls/lifecycle.py ends once the policy is asked.
use vyuu_mcp_gateway.Prelude.{
  [], ◌∷◌, ◌≡◌, ◌≢◌, refl, inl, inr, Bool, true, false, String, Option, none, some, Result, ok,
  raise, arith, if◌then◌else◌, Bool-cases, text_eq,
}
use vyuu_mcp_gateway.Prelude.Text.{first}
use Prim.Native.String.{◌++◌ as append}
use vyuu_mcp_gateway.Access.{Principal}
use vyuu_mcp_gateway.ToolCalls.{
  UpstreamError, raised, ToolCallStatus, denied, allowed, upstream_error, upstream_timeout,
  input_required_denied, PolicyDecision, allow_by_default, GatewaySession, ResolvedTool,
  UpstreamStatus, upstream_failed, upstream_timed_out, not_called, strict, ToolCallRequest,
  UpstreamOutcome, responded, timed_out, failed, Collaborators,
}
use vyuu_mcp_gateway.ToolCalls.Lifecycle.{
  on_error, on_client, mrtr_error, mrtr_decision, audit_event, _audit_failure_result,
  _denied_result, _upstream_failure_result, completed, on_response, on_outcome, call_upstream,
  _strict_audit_preflight_failure, after_preflight, on_decision, refuses_input,
}
use vyuu_mcp_gateway.ToolCalls.Gates.{
  Cleared, Permitted, call_of, End, refused, stopped, reached, without_client,
}

module _ {A C R : Type 0} (w : Collaborators A C R) (request : ToolCallRequest A C R) where
  pub denied-End :
      (status : ToolCallStatus) (decision : PolicyDecision) (session : Option GatewaySession)
      (principal : Option Principal) (tool : Option ResolvedTool) (rule error : Option String)
      → decision.is_allowed ≡ false
      → End w request (_denied_result w status request decision session principal tool rule error)
  unfolding _denied_result audit_event _audit_failure_result
  denied-End status decision session principal tool rule error h =
      refused _ session principal refl refl refl (ground arith)

  failure-End :
      (p : Permitted w request) (status : ToolCallStatus) (ending : UpstreamStatus) (error : String)
      (decision : PolicyDecision) (rule : Option String)
      → ending ≢ not_called
      → status ≢ allowed
      → End w request (
          _upstream_failure_result w status request p.cleared.session p.cleared.principal
            p.cleared.tool
            (call_of w request p.cleared ∷ [])
            ending
            error
            decision
            rule)
  unfolding _upstream_failure_result audit_event _audit_failure_result
  failure-End p status ending error decision rule h g =
      reached p _ refl h (λ s. absurd (ground arith)) (λ mode. ground arith)

  completed-End :
      (p : Permitted w request) (response : R)
      → End w request (
          completed w request p.cleared.session p.cleared.principal p.cleared.tool
            (call_of w request p.cleared)
            p.decision
            response)
  unfolding completed audit_event _audit_failure_result
  completed-End p response =
      reached p _ refl (ground arith) (λ s. ground arith) (λ mode. ground arith)

  error-End :
      (p : Permitted w request) (error : UpstreamError)
      → End w request (
          on_error w request p.cleared.session p.cleared.principal p.cleared.tool
            (call_of w request p.cleared ∷ [])
            error)
  unfolding on_error
  error-End p (timed_out name) =
      failure-End p upstream_timeout upstream_timed_out name allow_by_default none (ground arith)
        (ground arith)
  error-End p (failed name text) =
      failure-End p upstream_error upstream_failed (first 200 (append name (append ": " text)))
        allow_by_default none (ground arith) (ground arith)

  on_outcome-End :
      (p : Permitted w request) (outcome : UpstreamOutcome A C R)
      → End w request (
          on_outcome w request p.cleared.session p.cleared.principal p.cleared.tool
            (call_of w request p.cleared)
            p.decision
            outcome)
  unfolding on_outcome on_response
  on_outcome-End p (responded response) = elim (Bool-cases (refuses_input w response)) [
    | inl e ↦ rw e (
        failure-End p input_required_denied upstream_failed (mrtr_error w response)
          (mrtr_decision w response) (some "input_required_denied") (ground arith) (ground arith))
    | inr e ↦ rw e (completed-End p response)
  ]
  on_outcome-End p (raised error) = error-End p error

  no_client-End :
      (p : Permitted w request) (error : UpstreamError)
      → w.get_client p.cleared.session.tenant_id p.cleared.tool.upstream_server_id ≡ some error
      → End w request
          (on_error w request p.cleared.session p.cleared.principal p.cleared.tool [] error)
  unfolding on_error _upstream_failure_result audit_event _audit_failure_result
  no_client-End p (timed_out name) gone =
      without_client p _ (timed_out name) refl gone refl (ground arith)
  no_client-End p (failed name text) gone =
      without_client p _ (failed name text) refl gone refl (ground arith)

  on_client-End :
      (p : Permitted w request) (client : Option UpstreamError)
      → w.get_client p.cleared.session.tenant_id p.cleared.tool.upstream_server_id ≡ client
      → End w request (
          on_client w request p.cleared.session p.cleared.principal p.cleared.tool p.decision
            client)
  unfolding on_client
  on_client-End p (some error) gone = no_client-End p error gone
  on_client-End p none there = on_outcome-End p _

  call_upstream-End :
      (p : Permitted w request)
      → End w request
          (call_upstream w request p.cleared.session p.cleared.principal p.cleared.tool p.decision)
  unfolding call_upstream
  call_upstream-End p = on_client-End p _ refl

  -- The preflight passes only where an event can be queued durably, if it must be.
  preflight_passes :
      _strict_audit_preflight_failure w ≡ none
      → w.audit_failure_mode ≡ strict
      → w.can_durably_accept_now ≡ some true
  unfolding _strict_audit_preflight_failure
  preflight_passes h mode = ground arith

  preflight_strict :
      {reason : String}
      → _strict_audit_preflight_failure w ≡ some reason
      → w.audit_failure_mode ≡ strict
  unfolding _strict_audit_preflight_failure
  preflight_strict h = ground arith

  after_preflight-End :
      (p : Cleared w request) (decision : PolicyDecision) (stop : Option String)
      → w.evaluate_tool_call p.session.tenant_id p.session.vserver_name p.tool request.arguments
          p.session.policy_id
        ≡ ok decision
      → decision.is_allowed ≡ true
      → _strict_audit_preflight_failure w ≡ stop
      → End w request (after_preflight w request p.session p.principal p.tool decision stop)
  unfolding after_preflight
  after_preflight-End c decision none h e passes = call_upstream-End (record {
    cleared = c;
    decision = decision;
    decided = h;
    is_allowed = e;
    durable = preflight_passes passes;
  })
  after_preflight-End c decision (some reason) h e stops =
      stopped refl (preflight_strict stops) refl refl

  by_decision-End :
      (c : Cleared w request) (decision : PolicyDecision) (b : Bool)
      → w.evaluate_tool_call c.session.tenant_id c.session.vserver_name c.tool request.arguments
          c.session.policy_id
        ≡ ok decision
      → decision.is_allowed ≡ b
      → (rule : Option String)
      → End w request (
          if b
          then after_preflight w request c.session c.principal c.tool decision
              (_strict_audit_preflight_failure w)
          else _denied_result w denied request decision
              (some c.session)
              (some c.principal)
              (some c.tool)
              rule
              none)
  by_decision-End c decision true h e rule = after_preflight-End c decision _ h e refl
  by_decision-End c decision false h e rule = denied-End _ decision _ _ _ _ _ e

  pub on_decision-End :
      (c : Cleared w request) (r : Result String PolicyDecision)
      → w.evaluate_tool_call c.session.tenant_id c.session.vserver_name c.tool request.arguments
          c.session.policy_id
        ≡ r
      → End w request (on_decision w request c.session c.principal c.tool r)
  unfolding on_decision
  on_decision-End c (raise name) h = denied-End _ _ _ _ _ _ _ refl
  on_decision-End c (ok decision) h = by_decision-End c decision decision.is_allowed h refl _
