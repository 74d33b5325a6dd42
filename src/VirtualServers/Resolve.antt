-- ===== src/VirtualServers/Resolve.antt =====
-- `VirtualServerResolver.resolve_tools`: the queries over the catalogue, and what they lead to. The
-- order of `ORDER BY` depends on the collation of the database, so it is a parameter.
pub mod Scope
use Prim.Native.String.{◌++◌ as append}
use vyuu_mcp_gateway.Prelude.{
  ℕ, suc, ◌+◌, String, str_eq, Bool, true, false, not, ◌&&◌, Option, none, some, List, [], ◌∷◌,
  ◌++◌, map, keep, find, any, length, ◌==◌, Result, ok, raise, if◌then◌else◌,
}
use vyuu_mcp_gateway.Prelude.Decimal.{decimal}
use vyuu_mcp_gateway.Tables.{VirtualServer}
use vyuu_mcp_gateway.ToolCalls.{
  ResolvedToolsList, ResolveError, virtual_server_not_found, capabilities_not_synced_error,
}
use vyuu_mcp_gateway.VirtualServers.{
  VirtualServerToolCapability, McpServer, McpCapabilityKind, tool, resource, prompt, McpCapability,
  VirtualServerTool, Catalogue,
}
use vyuu_mcp_gateway.VirtualServers.Synthesis.{synthesize_tools}

abbrev pub is_tool : McpCapabilityKind → Bool
is_tool tool = true
is_tool resource = false
is_tool prompt = false

-- `VirtualServer.tenant_id == tenant_id, VirtualServer.name == vserver_name`
unfoldable pub select_by_name : ℕ → String → Catalogue → Option VirtualServer
select_by_name tenant vserver_name db =
    find (λ v. v.tenant_id == tenant && str_eq v.name vserver_name) db.virtual_servers

-- The mapping rows of the virtual server.
abbrev pub mapped : ℕ → ℕ → Catalogue → List VirtualServerTool
mapped tenant vserver_id db =
    keep (λ t. t.tenant_id == tenant && t.vserver_id == vserver_id) db.tools

-- The conditions of the two joins.
abbrev pub serves : VirtualServerTool → McpServer → Bool
serves t s = t.tenant_id == s.tenant_id && t.server_id == s.id

abbrev pub describes : VirtualServerTool → McpCapability → Bool
describes t c =
    c.tenant_id == t.tenant_id
    && (c.server_id == t.server_id
        && (str_eq c.name t.tool_name && (is_tool c.kind && not c.deprecated)))

abbrev pub capability_row :
    McpServer → VirtualServerTool → McpCapability → VirtualServerToolCapability
capability_row s t c = record {
  server_id = s.id;
  server_display_name = s.display_name;
  tool_name = t.tool_name;
  schema_json = c.schema_json;
}

abbrev pub rows_of_mapping :
    Catalogue → McpServer → List VirtualServerTool → List VirtualServerToolCapability
rows_of_mapping db s [] = []
rows_of_mapping db s (t ∷ ts) =
    map (capability_row s t) (keep (describes t) (if serves t s then db.capabilities else []))
    ++ rows_of_mapping db s ts

abbrev pub rows_of_servers :
    Catalogue → List VirtualServerTool → List McpServer → List VirtualServerToolCapability
rows_of_servers db ts [] = []
rows_of_servers db ts (s ∷ ss) = rows_of_mapping db s ts ++ rows_of_servers db ts ss

-- `SELECT DISTINCT server_id`
abbrev pub distinct : List ℕ → List ℕ
distinct [] = []
distinct (x ∷ xs) = let rest = distinct xs in if any (λ y. x == y) rest then rest else x ∷ rest

-- The message of `CapabilitiesNotSyncedError`.
unfoldable pub not_synced : (ℕ → String) → ℕ → List ℕ → ResolveError
not_synced uuid_text vserver_id server_ids = capabilities_not_synced_error (
    append "vserver " (
      append (uuid_text vserver_id) (
        append " maps tools from " (
          append (decimal (length server_ids)) (
            append " upstream server(s) but no active capabilities "
              "are synced for those servers; trigger a capability sync to enable tool calls")))))

abbrev pub is_nil {ℓ} : {A : Type ℓ} → List A → Bool
is_nil [] = true
is_nil (_ ∷ _) = false

-- `replace(resolved, ...)`
abbrev pub of_vserver :
    VirtualServer → Option ResolvedToolsList → Option (Result ResolveError ResolvedToolsList)
of_vserver v none = none
of_vserver v (some resolved) = some (
    ok (record resolved {
      required_scopes = v.required_scopes;
      jit_tools = v.jit_tools;
      vserver_id = some v.id;
    }))

module _ (uuid_text : ℕ → String) (lower : String → String)
    (order : List VirtualServerToolCapability → List VirtualServerToolCapability) where
  unfoldable pub capabilities_of : ℕ → ℕ → Catalogue → List VirtualServerToolCapability
  capabilities_of tenant vserver_id db =
      order (rows_of_servers db (mapped tenant vserver_id db) db.servers)

  unfoldable pub resolve_in :
      ℕ → Catalogue → VirtualServer → Option (Result ResolveError ResolvedToolsList)
  unfolding capabilities_of synthesize_tools
  resolve_in tenant db v =
      let capabilities = capabilities_of tenant v.id db in
      let mapped_server_ids =
        distinct (map (λ (t : VirtualServerTool). t.server_id) (mapped tenant v.id db)) in
      let resolved = of_vserver v (synthesize_tools uuid_text lower capabilities v.rename_map) in
      if is_nil capabilities && not (is_nil mapped_server_ids)
      then some (raise (not_synced uuid_text v.id mapped_server_ids))
      else resolved

  abbrev pub on_vserver :
      ℕ → Catalogue → Option VirtualServer → Option (Result ResolveError ResolvedToolsList)
  on_vserver tenant db none = some (raise virtual_server_not_found)
  on_vserver tenant db (some v) = resolve_in tenant db v

  unfoldable pub resolve_tools :
      ℕ → String → Catalogue → Option (Result ResolveError ResolvedToolsList)
  unfolding select_by_name resolve_in
  resolve_tools tenant vserver_name db =
      on_vserver tenant db (select_by_name tenant vserver_name db)
