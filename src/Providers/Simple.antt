-- ===== src/Providers/Simple.antt =====
-- `SimplePolicyProvider`. `validate` is the JSON-schema validator: the message of its error, if any.
use vyuu_mcp_gateway.Prelude.{
  String, Bool, true, false, not, Option, none, some, List, any, str_eq, if◌then◌else◌,
}
use vyuu_mcp_gateway.Schema.{Json, object, text, other, end, Tool}
use vyuu_mcp_gateway.ToolCalls.{
  PolicyDecision, deny, reason_tool_denied, reason_malformed_args, ResolvedTool,
}

pub record SimplePolicyProvider : Type 0 where
  pub allowed_tools : Option (List String)
  pub denied_tools : List String
  pub capture_raw_audit : Bool

abbrev pub is_in : String → List String → Bool
is_in name names = any (str_eq name) names

abbrev not_allowed : String → Option (List String) → Bool
not_allowed name none = false
not_allowed name (some names) = not (is_in name names)

-- PolicyDecision.allow(capture_raw_args=..., capture_raw_response=...)
abbrev pub allow_capturing : Bool → PolicyDecision
allow_capturing capture = record {
  is_allowed = true;
  reason = none;
  message = none;
  rule_id = none;
  capture_raw_args = capture;
  capture_raw_response = capture;
}

-- `schema or {}`
abbrev pub tool_input_schema : Tool → Json
tool_input_schema tool = elim tool.input_schema [
  | object fields ↦ object fields
  | text s ↦ if str_eq s "" then object end else text s
  | other ↦ other
]

abbrev checked : Bool → Option String → PolicyDecision
checked capture none = allow_capturing capture
checked capture (some message) = deny reason_malformed_args message

unfoldable pub evaluate_simple :
    {A : Type 0}
    → (Json → A → Option String)
    → SimplePolicyProvider
    → ResolvedTool
    → A
    → PolicyDecision
evaluate_simple validate provider tool arguments =
    if is_in tool.exposed_name provider.denied_tools
    then deny reason_tool_denied "tool is denied by policy"
    else if not_allowed tool.exposed_name provider.allowed_tools
    then deny reason_tool_denied "tool is not allowed by policy"
    else checked provider.capture_raw_audit (validate (tool_input_schema tool.tool) arguments)
