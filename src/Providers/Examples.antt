-- ===== src/Providers/Examples.antt =====
-- A policy that is fetched once and used for sixty ticks, and a chain of two identity providers.
use vyuu_mcp_gateway.Prelude.{◌↔◌, String, none, some, [], ◌∷◌, ok, raise, ◌≡◌, refl, arith}
use vyuu_mcp_gateway.Schema.{_to_mcp_tool, end}
use vyuu_mcp_gateway.Access.{Principal, federated_user}
use vyuu_mcp_gateway.ToolCalls.{ResolvedTool}
use vyuu_mcp_gateway.Providers.Management.{
  allows, denies, ManagementPolicyDocument, Context, Serve, decide, allow_by, evaluate_tool_call,
}
use vyuu_mcp_gateway.Providers.Management.Fresh.{Call, Recent, cache_after, policy_within_ttl}
use vyuu_mcp_gateway.Providers.Chain.{IdentityProvider, validate_principal}
use vyuu_mcp_gateway.Providers.Chain.First.{FirstOf, validate_principal_exact}

abbrev policy : ManagementPolicyDocument
policy = record {
  policy_id = 7;
  version = "1";
  default_decision = denies;
  rules =
      record {
        id = "r1";
        effect = allows;
        tools = some ("close" ∷ []);
        upstream_tools = none;
        upstream_server_ids = none;
      }
      ∷ [];
}

abbrev close : ResolvedTool
close = record {
  exposed_name = "close";
  upstream_server_id = 12;
  upstream_tool_name = "close_ticket";
  tool = _to_mcp_tool "close" end;
}

abbrev context : Context
context = record { tenant_id = 1; tool = close; policy_id = some 7 }

abbrev serving : Serve
serving tenant id = ok policy

abbrev down : Serve
down tenant id = raise "ConnectError"

-- The management plane answers at 0 and is down at 50.
abbrev first_call : Call
first_call = record { now = 0; serve = serving; context = context }

abbrev second_call : Call
second_call = record { now = 50; serve = down; context = context }

policy_within_ttl_example :
    (p : ManagementPolicyDocument) × Recent 60 (second_call ∷ first_call ∷ []) 50 1 7 p
    × (allow_by "r1" ≡ decide p close)
unfolding evaluate_tool_call cache_after
policy_within_ttl_example =
    policy_within_ttl 60 second_call (first_call ∷ []) 7 (omega arith) refl refl

abbrev eight : Principal
eight = record { type = federated_user; id = "8"; tenant_id = 1; scopes = [] }

abbrev by_key : IdentityProvider String
by_key tenant credentials = raise "not a key"

abbrev by_token : IdentityProvider String
by_token tenant credentials = ok eight

validate_principal_exact_example :
    (validate_principal String (by_key ∷ by_token ∷ []) 1 "eyJ" ≡ ok eight)
    ↔ FirstOf 1 "eyJ" (by_key ∷ by_token ∷ []) eight
validate_principal_exact_example = validate_principal_exact 1 "eyJ" (by_key ∷ by_token ∷ []) eight
