-- ===== src/VirtualServers/Examples.antt =====
-- A virtual server over two upstream servers that both have a tool `close`.
use vyuu_mcp_gateway.Prelude.{
  ℕ, String, Bool, false, none, some, List, [], ◌∷◌, map, Memᴰ, ◌≡◌, ◌≢◌, refl, arith, ok, raise,
}
use vyuu_mcp_gateway.Schema.{end, _to_mcp_tool}
use vyuu_mcp_gateway.Tables.{VirtualServer, private}
use vyuu_mcp_gateway.ToolCalls.{ResolvedTool, ResolvedToolsList, virtual_server_not_found}
use vyuu_mcp_gateway.VirtualServers.{
  VirtualServerToolCapability, McpServer, tool, McpCapability, VirtualServerTool, Catalogue,
}
use vyuu_mcp_gateway.VirtualServers.Names.{_make_unique, _desired_exposed_name, is_in}
use vyuu_mcp_gateway.VirtualServers.Fresh.{_make_unique_total}
use vyuu_mcp_gateway.VirtualServers.Synthesis.{synthesize_tools}
use vyuu_mcp_gateway.VirtualServers.Synthesis.Distinct.{
  DistinctTexts, names_of, target_of, source_of, synthesize_tools_distinct,
}
use vyuu_mcp_gateway.VirtualServers.Synthesis.Shared.{shared_name_not_exposed}
use vyuu_mcp_gateway.VirtualServers.Resolve.{resolve_tools}
use vyuu_mcp_gateway.VirtualServers.Resolve.Scope.{ResolvedFrom, resolve_tools_scoped}

abbrev uuid_text : ℕ → String
uuid_text n = "5f3a-11"

abbrev same_case : String → String
same_case s = s

abbrev taken : List String
taken = "close" ∷ "close_5f3a" ∷ "close_5f3a_2" ∷ []

_make_unique_total_example :
    (name : String) × (_make_unique uuid_text "close" 7 taken ≡ some name)
    × (is_in name taken ≡ false)
_make_unique_total_example = _make_unique_total uuid_text "close" 7 taken

third_name : _make_unique uuid_text "close" 7 taken ≡ some "close_5f3a_3"
unfolding _make_unique
third_name = refl

abbrev close_of : ℕ → String → VirtualServerToolCapability
close_of id name = record {
  server_id = id;
  server_display_name = name;
  tool_name = "close";
  schema_json = end;
}

abbrev both : List VirtualServerToolCapability
both = close_of 3 "jira" ∷ close_of 4 "git hub" ∷ []

synthesize_tools_distinct_example :
    (list : ResolvedToolsList) × (synthesize_tools uuid_text same_case both [] ≡ some list)
    × DistinctTexts (names_of list.tools)
    × (map target_of list.tools ≡ map source_of both)
synthesize_tools_distinct_example = synthesize_tools_distinct uuid_text same_case [] both

abbrev exposed_as : ℕ → String → ResolvedTool
exposed_as id name = record {
  exposed_name = name;
  upstream_server_id = id;
  upstream_tool_name = "close";
  tool = _to_mcp_tool name end;
}

abbrev both_tools : List ResolvedTool
both_tools = exposed_as 3 "jira_close" ∷ exposed_as 4 "git_hub_close" ∷ []

abbrev both_list : ResolvedToolsList
both_list = record { tools = both_tools; required_scopes = []; jit_tools = []; vserver_id = none }

both_exposed : synthesize_tools uuid_text same_case both [] ≡ some both_list
unfolding synthesize_tools
both_exposed = refl

shared_name_not_exposed_example : ◌≢◌ {A = String} "git_hub_close" "close"
unfolding _desired_exposed_name
shared_name_not_exposed_example =
    shared_name_not_exposed uuid_text same_case [] both (close_of 4 "git hub")
      (exposed_as 4 "git_hub_close") both_exposed (Memᴰ.tail (Memᴰ.head refl)) (omega arith)

abbrev mapping : ℕ → VirtualServerTool
mapping id = record { tenant_id = 1; vserver_id = 9; server_id = id; tool_name = "close" }

abbrev server : ℕ → String → McpServer
server id name = record { id = id; tenant_id = 1; display_name = name }

abbrev capability : ℕ → Bool → McpCapability
capability id old = record {
  tenant_id = 1;
  server_id = id;
  kind = tool;
  name = "close";
  schema_json = end;
  deprecated = old;
}

-- The tool `close` of the first server needs a scope.
abbrev gated : VirtualServer
gated = record {
  id = 9;
  tenant_id = 1;
  name = "tickets";
  visibility = private;
  rename_map = [];
  required_scopes = ("close", "tickets.write") ∷ [];
  jit_enabled = false;
  jit_max_duration_seconds = 60;
  jit_auto_approve = false;
  jit_require_justification = false;
  jit_tools = [];
}

abbrev catalogue : Bool → Catalogue
catalogue old = record {
  virtual_servers = gated ∷ [];
  servers = server 3 "jira" ∷ server 4 "git hub" ∷ [];
  tools = mapping 3 ∷ mapping 4 ∷ [];
  capabilities = capability 3 old ∷ capability 4 old ∷ [];
}

abbrev tickets : ResolvedToolsList
tickets = record both_list {
  required_scopes = ("close", "tickets.write") ∷ [];
  vserver_id = some 9;
}

abbrev stored : List VirtualServerToolCapability → List VirtualServerToolCapability
stored cs = cs

tickets_resolved :
    resolve_tools uuid_text same_case stored 1 "tickets" (catalogue false) ≡ some (ok tickets)
unfolding resolve_tools
tickets_resolved = refl

resolve_tools_scoped_example : ResolvedFrom 1 "tickets" (catalogue false) tickets
resolve_tools_scoped_example =
    resolve_tools_scoped uuid_text same_case stored (λ c cs m. m) 1 "tickets" (catalogue false)
      tickets_resolved

other_tenant :
    resolve_tools uuid_text same_case stored 2 "tickets" (catalogue false)
    ≡ some (raise virtual_server_not_found)
unfolding resolve_tools
other_tenant = refl
