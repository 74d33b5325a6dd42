-- ===== src/Inbound/Examples.antt =====
-- A gate with one place for each tenant, and a session that expires.
use vyuu_mcp_gateway.Prelude.{
  ℕ, ◌≤◌, ◌↔◌, String, Option, none, some, List, [], ◌∷◌, ◌≡◌, refl, arith, nat_eq, text_eq,
  pair_eq,
}
use vyuu_mcp_gateway.ToolCalls.{GatewaySession}
use vyuu_mcp_gateway.Inbound.Gate.{
  Scope, PerTenantInflightGate, refused, enter, _extract_tenant, new_gate,
}
use vyuu_mcp_gateway.Inbound.Gate.Bound.{
  count_of, Step, arrives, ends, run, refused_exactly_at_limit,
}
use vyuu_mcp_gateway.Inbound.Sessions.{get_session}
use vyuu_mcp_gateway.Inbound.Sessions.Lazy.{
  Call, creates, gets, deletes, visible, latest, get_session_refines,
}
use vyuu_mcp_gateway.Inbound.Sessions.Lazy

abbrev paths : List String
paths = "/healthz" ∷ []

abbrev no_match : String → Option String
no_match path = none

abbrev always_five : String → Option ℕ
always_five value = some 5

abbrev call : Scope
call = record { type = "http"; path = "/api"; headers = ("x-vyuu-tenant-id", "5") ∷ [] }

abbrev one_place : PerTenantInflightGate
one_place = record { limit = 1; semaphores = [] }

abbrev traffic : List Step
traffic = arrives call ∷ ends 5 ∷ arrives call ∷ arrives call ∷ []

refused_exactly_at_limit_example :
    (count_of 5
        (run paths no_match always_five
          (record { gate = one_place; inflight = [] })
          traffic).inflight
      ≤ 1)
    × (((enter paths no_match always_five
            (run paths no_match always_five
              (record { gate = one_place; inflight = [] })
              traffic).gate
            call).1
          ≡ refused 5)
        ↔ (count_of 5
              (run paths no_match always_five
                (record { gate = one_place; inflight = [] })
                traffic).inflight
            ≡ 1))
unfolding new_gate _extract_tenant
refused_exactly_at_limit_example =
    refused_exactly_at_limit paths no_match always_five 1 traffic call 5 refl refl refl refl

abbrev visit : GatewaySession
visit = record {
  session_id = "s1";
  expires_at = 100;
  tenant_id = 1;
  vserver_name = "tickets";
  vserver_id = none;
  policy_id = none;
}

abbrev calls : List Call
calls = creates visit ∷ gets 1 "s1" 120 ∷ deletes 2 "s1" ∷ []

get_session_refines_example :
    (get_session 1 "s1" 150 (Lazy.run [] calls)).1 ≡ visible 150 (latest (1, "s1") none calls)
get_session_refines_example = get_session_refines calls 1 "s1" 150 (tt, (omega arith, (tt, tt)))
