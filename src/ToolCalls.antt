-- ===== src/ToolCalls.antt =====
-- src/vyuu_gateway/tool_calls/lifecycle.py, with the decisions of policy/interfaces.py: what a tool call
-- reads, what it may answer, and what it does outside the gateway.
pub mod Lifecycle
pub mod Emitter
pub mod Mrtr
pub mod Gates
pub mod Audited
mod Examples
use vyuu_mcp_gateway.Prelude.{ℕ, Bool, true, false, String, Option, none, some, List, Result}
use vyuu_mcp_gateway.Dict.{Dict}
use vyuu_mcp_gateway.Access.{Principal}
use vyuu_mcp_gateway.Schema.{Tool}

pub data ToolCallStatus : Type 0 where
  audit_unavailable allowed capabilities_not_synced denied : ToolCallStatus
  identity_invalid insufficient_scope no_tool_elevation : ToolCallStatus
  input_required_denied malformed_args policy_engine_error : ToolCallStatus
  session_not_found tool_not_in_virtual_server : ToolCallStatus
  upstream_error upstream_timeout : ToolCallStatus

-- `PolicyDenyReason`, and the value of each.
pub data PolicyDenyReason : Type 0 where
  reason_audit_unavailable reason_capabilities_not_synced reason_identity_invalid : PolicyDenyReason
  reason_insufficient_scope reason_malformed_args reason_no_tool_elevation : PolicyDenyReason
  reason_input_required_denied reason_policy_engine_error reason_tool_denied : PolicyDenyReason
  reason_tool_not_in_virtual_server : PolicyDenyReason

abbrev pub reason_value : PolicyDenyReason → String
reason_value reason_audit_unavailable = "audit_unavailable"
reason_value reason_capabilities_not_synced = "capabilities_not_synced"
reason_value reason_identity_invalid = "identity_invalid"
reason_value reason_insufficient_scope = "insufficient_scope"
reason_value reason_malformed_args = "malformed_args"
reason_value reason_no_tool_elevation = "no_tool_elevation"
reason_value reason_input_required_denied = "input_required_denied"
reason_value reason_policy_engine_error = "policy_engine_error"
reason_value reason_tool_denied = "tool_denied"
reason_value reason_tool_not_in_virtual_server = "tool_not_in_virtual_server"

-- `PolicyDecision`; `is_allowed` is its property `allowed`.
pub record PolicyDecision : Type 0 where
  pub is_allowed : Bool
  pub reason : Option PolicyDenyReason
  pub message : Option String
  pub rule_id : Option String
  pub capture_raw_args : Bool
  pub capture_raw_response : Bool

-- `PolicyDecision.allow()` and `PolicyDecision.deny(reason, message)`
abbrev pub allow_by_default : PolicyDecision
allow_by_default = record {
  is_allowed = true;
  reason = none;
  message = none;
  rule_id = none;
  capture_raw_args = false;
  capture_raw_response = false;
}

abbrev pub deny : PolicyDenyReason → String → PolicyDecision
deny reason message = record {
  is_allowed = false;
  reason = some reason;
  message = some message;
  rule_id = none;
  capture_raw_args = false;
  capture_raw_response = false;
}

-- `GatewaySession`; its principal and client metadata are passed on unread, and left out.
pub record GatewaySession : Type 0 where
  pub session_id : String
  pub expires_at : ℕ
  pub tenant_id : ℕ
  pub vserver_name : String
  pub vserver_id : Option ℕ
  pub policy_id : Option ℕ

pub record ResolvedTool : Type 0 where
  pub exposed_name : String
  pub upstream_server_id : ℕ
  pub upstream_tool_name : String
  pub tool : Tool

pub record ResolvedToolsList : Type 0 where
  pub tools : List ResolvedTool
  pub required_scopes : Dict String String
  pub jit_tools : Dict String ℕ
  pub vserver_id : Option ℕ

-- The exceptions of `resolve_tools` that the lifecycle catches.
pub data ResolveError : Type 0 where
  virtual_server_not_found : ResolveError
  capabilities_not_synced_error : String → ResolveError

pub data UpstreamStatus : Type 0 where
  upstream_ok upstream_failed upstream_timed_out not_called : UpstreamStatus

pub data AuditDecision : Type 0 where
  audit_allow audit_deny : AuditDecision

pub data AuditFailureMode : Type 0 where
  strict continuity monitor : AuditFailureMode

pub record EmitResult : Type 0 where
  pub accepted : Bool
  pub spooled : Bool
  pub durable : Bool
  pub degraded : Bool
  pub reason : Option String

-- `MrtrDecision`, with its property `kinds`.
pub record MrtrDecision : Type 0 where
  pub allowed : Bool
  pub denied_reasons : List String
  pub kinds : List String

-- Whom an audit event names: the validated principal, the one recorded in the session, or `unknown`.
pub data AuditPrincipal : Type 0 where
  validated : Principal → AuditPrincipal
  of_session : GatewaySession → AuditPrincipal
  unknown : AuditPrincipal

-- What `get_client` and `call_tool` raise: `TimeoutError`, or something else with its text.
pub data UpstreamError : Type 0 where
  timed_out : String → UpstreamError
  failed : String → String → UpstreamError

-- The types that the lifecycle passes on unread: the arguments, the credentials and the response.
module _ (A C R : Type 0) where
  pub record ToolCallRequest : Type 0 where
    pub tenant_id : ℕ
    pub session_id : String
    pub tool_name : String
    pub arguments : A
    pub identity_credentials : C
    pub session : Option GatewaySession

  pub record AuditEvent : Type 0 where
    pub tenant_id : ℕ
    pub principal : AuditPrincipal
    pub vserver_id : Option ℕ
    pub vserver_name : Option String
    pub upstream_server_id : Option ℕ
    pub tool : String
    pub arguments : A
    pub decision : AuditDecision
    pub upstream_status : UpstreamStatus
    pub policy_id : Option ℕ
    pub policy_rule_id : Option String
    pub raw_args : Option A
    pub raw_response : Option R

  pub record ToolCallLifecycleResult : Type 0 where
    pub status : ToolCallStatus
    pub decision : PolicyDecision
    pub response : Option R
    pub upstream_server_id : Option ℕ
    pub upstream_tool_name : Option String
    pub audit_emit_result : EmitResult
    pub error_message : Option String

  -- What a call does to the rest of the system, in order: the call of `call_tool` of a client with the server, the
  -- tool, the arguments and the user; the audit event; the event for the graph.
  pub data Action : Type 0 where
    called : ℕ → String → A → Option ℕ → Action
    audited : AuditEvent → Action
    graphed : UpstreamStatus → Action

  -- How `call_tool` ends: it returns or raises.
  pub data UpstreamOutcome : Type 0 where
    responded : R → UpstreamOutcome
    raised : UpstreamError → UpstreamOutcome

  -- What is injected into `ToolCallLifecycle`, and the library functions that it calls. An emitter may
  -- answer by all that has happened. `get_client` is what it raises, if it does; a client's `call_tool` may
  -- itself refuse to reach the upstream, as with an open breaker. `can_durably_accept_now` is `none` for one without that method.
  pub record Collaborators : Type 0 where
    pub get_session : ℕ → String → Option GatewaySession
    pub validate_principal : ℕ → C → Result String Principal
    pub resolve_tools : ℕ → String → Result ResolveError ResolvedToolsList
    pub elevation_checker : Option (ℕ → ℕ → String → String → Result String Bool)
    pub parse_uuid : String → Option ℕ
    pub schema_error : ResolvedTool → A → Option String
    pub evaluate_tool_call : ℕ → String → ResolvedTool → A → Option ℕ → Result String PolicyDecision
    pub get_client : ℕ → ℕ → Option UpstreamError
    pub call_tool : ℕ → ℕ → String → A → Option ℕ → UpstreamOutcome
    pub is_input_required : R → Bool
    pub evaluate_input_requests : R → MrtrDecision
    pub result_is_error : R → Bool
    pub emit_nowait : List Action → AuditEvent → EmitResult
    pub can_durably_accept_now : Option Bool
    pub audit_failure_mode : AuditFailureMode
    pub repr : String → String
