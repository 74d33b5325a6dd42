-- ===== src/ToolCalls/Examples.antt =====
-- A tool call through concrete collaborators.
use vyuu_mcp_gateway.Prelude.{
  ◌≡◌, ◌≢◌, ◌↔◌, ◌⊎◌, refl, true, false, String, none, some, List, [], ◌∷◌, Memᴰ, ok,
}
use vyuu_mcp_gateway.Prelude.{Option, ◌≢◌}
use vyuu_mcp_gateway.Prelude.Text.{ends_with, strip, lstrip_dots}
use vyuu_mcp_gateway.ToolCalls.Mrtr.{
  MrtrPolicy, InputRequest, elicit_url, _host_allowed, Covers, host_allowed_exact,
}
use vyuu_mcp_gateway.Dict
use vyuu_mcp_gateway.Access.{Principal, federated_user}
use vyuu_mcp_gateway.ToolCalls.{
  audit_unavailable, allowed, allow_by_default, GatewaySession, ResolvedTool, upstream_ok,
  not_called, audit_allow, AuditFailureMode, strict, monitor, ToolCallRequest, AuditEvent, Action,
  called, audited, graphed, responded, UpstreamError, Collaborators,
}
use vyuu_mcp_gateway.ToolCalls.Lifecycle.{
  on_client, _holds_tool_elevation, audit_event, on_response, on_outcome, call_upstream,
  refuses_input, completed, _strict_audit_preflight_failure, after_preflight, on_decision,
  on_arguments, on_tool, on_found, on_resolved, on_principal, on_session, handle_tool_call,
}
use vyuu_mcp_gateway.ToolCalls.Gates.{Permitted, status_of}
use vyuu_mcp_gateway.ToolCalls.Audited.{
  call_count, upstream_call_is_permitted, audit_tells_upstream,
}
use vyuu_mcp_gateway.Schema.{_to_mcp_tool, end}
use vyuu_mcp_gateway.ToolCalls.Emitter.{strict_async_fails_after_call}
use vyuu_mcp_gateway.Audit.Lines.{Text}
use vyuu_mcp_gateway.Audit.Emitter.{AsyncAuditEmitter, emit_nowait}

abbrev session : GatewaySession
session = record {
  session_id = "s1";
  expires_at = 100;
  tenant_id = 1;
  vserver_name = "tickets";
  vserver_id = some 5;
  policy_id = none;
}

abbrev eight : Principal
eight = record { type = federated_user; id = "8"; tenant_id = 1; scopes = "tickets.write" ∷ [] }

abbrev close_tool : ResolvedTool
close_tool = record {
  exposed_name = "close";
  upstream_server_id = 12;
  upstream_tool_name = "close_ticket";
  tool = _to_mcp_tool "close" end;
}

-- An emitter with a queue of ten, nothing in it, and a spool.
abbrev emitter : AsyncAuditEmitter (AuditEvent String String String)
emitter = record {
  queue = [];
  in_flight = none;
  max_queue_size = 10;
  overflow_spool = some (record { file = none; max_bytes = none });
  degraded = false;
}

-- The JSON text of an event: here, always `{}`.
abbrev braces : AuditEvent String String String → Text
braces e = 123 ∷ 125 ∷ []

-- The tool needs a scope and an elevation; the principal has both.
abbrev gateway : AuditFailureMode → Collaborators String String String
gateway mode = record {
  get_session = λ tenant id. some session;
  validate_principal = λ tenant credentials. ok eight;
  resolve_tools = λ tenant name. ok (record {
    tools = close_tool ∷ [];
    required_scopes = ("close", "tickets.write") ∷ [];
    jit_tools = ("close", 60) ∷ [];
    vserver_id = some 5;
  });
  elevation_checker = some (λ tenant vserver tool id. ok true);
  parse_uuid = λ s. some 8;
  schema_error = λ tool arguments. none;
  evaluate_tool_call = λ tenant name tool arguments policy_id. ok allow_by_default;
  get_client = λ tenant server. none;
  call_tool = λ tenant server tool arguments uid. responded "closed";
  is_input_required = λ response. false;
  evaluate_input_requests = λ response. record { allowed = false; denied_reasons = []; kinds = [] };
  result_is_error = λ response. false;
  emit_nowait = λ actions e. (emit_nowait braces e emitter).1;
  can_durably_accept_now = some true;
  audit_failure_mode = mode;
  repr = λ s. s;
}

abbrev request : ToolCallRequest String String String
request = record {
  tenant_id = 1;
  session_id = "s1";
  tool_name = "close";
  arguments = "{}";
  identity_credentials = "token";
  session = none;
}

abbrev event : AuditEvent String String String
event =
    audit_event (gateway monitor) request (some session) (some eight) allow_by_default audit_allow
      upstream_ok (some 12) none none none

abbrev trace : List (Action String String String)
trace = called 12 "close_ticket" "{}" (some 8) ∷ audited event ∷ graphed upstream_ok ∷ []

trace_of : (handle_tool_call (gateway monitor) request).0 ≡ trace
unfolding handle_tool_call on_session on_principal on_resolved on_found on_tool
    _holds_tool_elevation on_arguments on_decision _strict_audit_preflight_failure after_preflight
    call_upstream on_client on_outcome on_response refuses_input completed audit_event Dict.get
trace_of = refl

strict_trace : call_count (handle_tool_call (gateway strict) request).0 ≡ 1
unfolding handle_tool_call on_session on_principal on_resolved on_found on_tool
    _holds_tool_elevation on_arguments on_decision _strict_audit_preflight_failure after_preflight
    call_upstream on_client on_outcome on_response refuses_input completed Dict.get
strict_trace = refl

upstream_call_is_permitted_example :
    (p : Permitted (gateway monitor) request) × (12 ≡ p.cleared.tool.upstream_server_id)
    × ("close_ticket" ≡ p.cleared.tool.upstream_tool_name)
    × ("{}" ≡ request.arguments)
    × (some 8 ≡ (gateway monitor).parse_uuid p.cleared.principal.id)
upstream_call_is_permitted_example =
    upstream_call_is_permitted (gateway monitor) request 12 "close_ticket" "{}" (some 8)
      (rw trace_of (Memᴰ.head refl))

audit_tells_upstream_example :
    (event.upstream_status ≡ not_called
      → call_count (handle_tool_call (gateway monitor) request).0 ≡ 0)
    × (call_count (handle_tool_call (gateway monitor) request).0 ≡ 0
        → (event.upstream_status ≡ not_called)
          ⊎ ((p : Permitted (gateway monitor) request) × (error : UpstreamError) × ((gateway
                    monitor).get_client
                  p.cleared.session.tenant_id p.cleared.tool.upstream_server_id
                ≡ some error)
              × (event.upstream_status ≡ status_of (gateway monitor) request error)))
audit_tells_upstream_example =
    audit_tells_upstream (gateway monitor) request event (rw trace_of (Memᴰ.tail (Memᴰ.head refl)))

strict_async_fails_after_call_example :
    (handle_tool_call (gateway strict) request).1.status ≡ audit_unavailable
strict_async_fails_after_call_example =
    strict_async_fails_after_call (gateway strict) request braces (λ _. emitter) refl (λ _ _. refl)
      (λ _. refl) strict_trace

abbrev same_text : String → String
same_text s = s

abbrev okta : String → Option String
okta s = some "login.okta.com"

abbrev url_policy : MrtrPolicy
url_policy = record { allowed_kinds = elicit_url ∷ []; allowed_elicit_url_hosts = "okta.com" ∷ [] }

abbrev sign_in : InputRequest
sign_in = record {
  request_id = "1";
  method = some "elicitation/create";
  mode = some "url";
  url = some "https://login.okta.com/";
}

host_allowed_exact_example :
    (_host_allowed same_text same_text okta "login.okta.com" ("okta.com" ∷ []) ≡ true) ↔ (
      (entry : String) × Memᴰ entry ("okta.com" ∷ [])
      × Covers same_text same_text okta "login.okta.com" entry)
host_allowed_exact_example =
    host_allowed_exact same_text same_text okta "login.okta.com" ("okta.com" ∷ [])

-- The host test on a name below the entry and on one that only ends alike.
subdomain_only :
    (_host_allowed same_text same_text okta "login.okta.com" ("okta.com" ∷ []) ≡ true)
    × (_host_allowed same_text same_text okta "evil-okta.com" ("okta.com" ∷ []) ≡ false)
unfolding _host_allowed ends_with strip lstrip_dots
subdomain_only = (refl, refl)
