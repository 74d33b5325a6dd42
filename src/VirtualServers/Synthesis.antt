-- ===== src/VirtualServers/Synthesis.antt =====
-- `synthesize_tools`: the tools that a list of capabilities is exposed as. `none` would be a loop of
-- `_make_unique` without an end.
pub mod Distinct
pub mod Shared
use Prim.Native.String.{◌++◌ as append}
use vyuu_mcp_gateway.Prelude.{
  ℕ, zero, suc, ◌+◌, String, Bool, true, false, Option, none, some, List, [], ◌∷◌, ◌++◌, map, ltb,
  str_eq, if◌then◌else◌,
}
use vyuu_mcp_gateway.Dict.{Dict}
use vyuu_mcp_gateway.Schema.{_to_mcp_tool}
use vyuu_mcp_gateway.ToolCalls.{ResolvedTool, ResolvedToolsList}
use vyuu_mcp_gateway.VirtualServers.{VirtualServerToolCapability}
use vyuu_mcp_gateway.VirtualServers.Names.{
  _prefix_from_display_name, _desired_exposed_name, _make_unique,
}

-- names.count(name)
abbrev pub count_of : String → List String → ℕ
count_of name [] = 0
count_of name (x ∷ xs) = (if str_eq name x then 1 else 0) + count_of name xs

abbrev pub more : ResolvedTool → Option (List ResolvedTool) → Option (List ResolvedTool)
more tool none = none
more tool (some tools) = some (tool ∷ tools)

abbrev pub with_name :
    Option String → (String → Option (List ResolvedTool)) → Option (List ResolvedTool)
with_name none k = none
with_name (some name) k = k name

abbrev pub listed : Option (List ResolvedTool) → Option ResolvedToolsList
listed none = none
listed (some tools) =
    some (record { tools = tools; required_scopes = []; jit_tools = []; vserver_id = none })

module _ (uuid_text : ℕ → String) (lower : String → String) where
  -- The name that the capability asks for: its desired name, with a prefix where another
  -- capability desires the same.
  abbrev pub candidate_of : List String → VirtualServerToolCapability → String → String
  candidate_of desired_names capability desired_name =
      if ltb 1 (count_of desired_name desired_names)
      then append (_prefix_from_display_name lower capability.server_display_name)
          (append "_" desired_name)
      else desired_name

  abbrev pub resolved_as : VirtualServerToolCapability → String → ResolvedTool
  resolved_as capability exposed_name = record {
    exposed_name = exposed_name;
    upstream_server_id = capability.server_id;
    upstream_tool_name = capability.tool_name;
    tool = _to_mcp_tool exposed_name capability.schema_json;
  }

  -- The `for` of `synthesize_tools`, over the capabilities that are left.
  unfoldable pub expose :
      Dict String String
      → List String
      → List String
      → List VirtualServerToolCapability
      → Option (List ResolvedTool)
  unfolding _prefix_from_display_name _desired_exposed_name _make_unique
  expose rename_map desired_names used_names [] = some []
  expose rename_map desired_names used_names (capability ∷ capabilities) =
      with_name
        (_make_unique uuid_text
          (candidate_of desired_names capability
            (_desired_exposed_name uuid_text capability rename_map))
          capability.server_id used_names)
        (λ exposed_name.
          more (resolved_as capability exposed_name)
            (expose rename_map desired_names (exposed_name ∷ used_names) capabilities))

  unfoldable pub synthesize_tools :
      List VirtualServerToolCapability → Dict String String → Option ResolvedToolsList
  unfolding expose _desired_exposed_name
  synthesize_tools capabilities rename_map = listed (
      expose rename_map (map (λ c. _desired_exposed_name uuid_text c rename_map) capabilities) []
        capabilities)
