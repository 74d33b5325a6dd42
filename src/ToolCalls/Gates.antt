-- ===== src/ToolCalls/Gates.antt =====
-- Through which gates a tool call of tool_calls/lifecycle.py goes before it reaches the upstream, and how it
-- may end.
pub mod Upstream
pub mod Passed
use vyuu_mcp_gateway.Prelude.{
  ℕ, ◌≡◌, ◌≢◌, ◌⊎◌, refl, ◌∙◌, inl, inr, Bool, true, false, String, str_eq, str_eq_iff, Option,
  none, some, [], ◌∷◌, any_sound, find, find_sound, Memᴰ, ◌==◌, Result, ok, raise, arith,
  if◌then◌else◌, Bool-cases, Option-cases, text_eq,
}
use vyuu_mcp_gateway.Prelude.Text.{first}
use Prim.Native.String.{◌++◌ as append}
use vyuu_mcp_gateway.Dict
use vyuu_mcp_gateway.Access.{Principal}
use vyuu_mcp_gateway.ToolCalls.{
  UpstreamError, timed_out, failed, upstream_failed, upstream_timed_out, ToolCallStatus, denied,
  audit_unavailable, allowed, upstream_error, upstream_timeout, input_required_denied,
  PolicyDecision, allow_by_default, GatewaySession, ResolvedTool, ResolvedToolsList, ResolveError,
  virtual_server_not_found, capabilities_not_synced_error, UpstreamStatus, upstream_ok,
  upstream_failed, upstream_timed_out, not_called, audit_allow, audit_deny, strict, ToolCallRequest,
  AuditEvent, Action, called, audited, graphed, UpstreamOutcome, responded, timed_out, failed,
  Collaborators,
}
use vyuu_mcp_gateway.ToolCalls.Lifecycle.{
  Outcome, mrtr_error, mrtr_decision, _holds_tool_elevation, audit_event, graph_event,
  _audit_failure_result, _denied_result, _upstream_failure_result, completed, on_response,
  on_outcome, call_upstream, _strict_audit_preflight_failure, after_preflight, on_decision,
  on_arguments, refuses_input, lacks_scope, lacks_elevation, on_tool, on_found, on_resolved,
  on_principal, no_session, on_session, session_of, handle_tool_call,
}

module _ {A C R : Type 0} (w : Collaborators A C R) (request : ToolCallRequest A C R) where
  -- What lets a call through, up to the arguments.
  pub record Cleared : Type 0 where
    pub session : GatewaySession
    pub principal : Principal
    pub list : ResolvedToolsList
    pub tool : ResolvedTool
    pub has_session : session_of w request ≡ some session
    pub same_tenant : session.tenant_id ≡ request.tenant_id
    pub is_principal :
        w.validate_principal session.tenant_id request.identity_credentials ≡ ok principal
    pub resolved : w.resolve_tools session.tenant_id session.vserver_name ≡ ok list
    pub listed : Memᴰ tool list.tools
    pub named : tool.exposed_name ≡ request.tool_name
    pub in_scope :
        (scope : String)
        → Dict.get list.required_scopes tool.exposed_name ≡ some scope
        → Memᴰ scope principal.scopes
    pub elevated :
        (ceiling : ℕ)
        → Dict.get list.jit_tools tool.exposed_name ≡ some ceiling
        → _holds_tool_elevation w session.tenant_id list.vserver_id tool.exposed_name principal
          ≡ true
    pub valid_arguments : w.schema_error tool request.arguments ≡ none

  -- And what lets it through to the upstream.
  pub record Permitted : Type 0 where
    pub cleared : Cleared
    pub decision : PolicyDecision
    pub decided :
        w.evaluate_tool_call cleared.session.tenant_id cleared.session.vserver_name cleared.tool
          request.arguments cleared.session.policy_id
        ≡ ok decision
    pub is_allowed : decision.is_allowed ≡ true
    pub durable : w.audit_failure_mode ≡ strict → w.can_durably_accept_now ≡ some true

  abbrev pub call_of : Cleared → Action A C R
  call_of c =
      called c.tool.upstream_server_id c.tool.upstream_tool_name request.arguments
        (w.parse_uuid c.principal.id)

  -- What the audit says of an exception.
  abbrev pub status_of : UpstreamError → UpstreamStatus
  status_of (timed_out name) = upstream_timed_out
  status_of (failed name text) = upstream_failed

  -- How `handle_tool_call` ends: refused and audited, stopped before anything was done, without a client and
  -- audited, or called and audited.
  pub data End (out : Outcome w) : Type 0 where
    refused :
        (e : AuditEvent A C R) (session : Option GatewaySession) (principal : Option Principal)
        → out.0 ≡ audited e ∷ graph_event w session principal not_called
        → e.upstream_status ≡ not_called
        → e.decision ≡ audit_deny
        → out.1.decision.is_allowed ≡ false
        → End out
    stopped :
        out.0 ≡ []
        → w.audit_failure_mode ≡ strict
        → out.1.status ≡ audit_unavailable
        → out.1.decision.is_allowed ≡ false
        → End out
    reached :
        (p : Permitted) (e : AuditEvent A C R)
        → out.0 ≡ call_of p.cleared ∷ audited e ∷ graphed e.upstream_status ∷ []
        → e.upstream_status ≢ not_called
        → (out.1.status ≡ allowed → (e.decision ≡ audit_allow) × (e.upstream_status ≡ upstream_ok))
        → (w.audit_failure_mode ≡ strict
            → (out.1.status ≡ audit_unavailable)
              ⊎ (((w.emit_nowait (call_of p.cleared ∷ []) e).accepted ≡ true)
                  × ((w.emit_nowait (call_of p.cleared ∷ []) e).durable ≡ true)))
        → End out
    without_client :
        (p : Permitted) (e : AuditEvent A C R) (error : UpstreamError)
        → out.0 ≡ audited e ∷ graphed e.upstream_status ∷ []
        → w.get_client p.cleared.session.tenant_id p.cleared.tool.upstream_server_id ≡ some error
        → e.upstream_status ≡ status_of error
        → out.1.status ≢ allowed
        → End out
