-- ===== src/VirtualServers/Synthesis/Distinct.antt =====
-- The names that the tools of a virtual server are exposed under, and the capabilities they come from.
use vyuu_mcp_gateway.Prelude.{
  ℕ, String, false, none, some, List, [], ◌∷◌, map, All, ◌≡◌, ◌≢◌, refl, ap, arith, str_eq_iff,
}
use vyuu_mcp_gateway.Dict.{Dict}
use vyuu_mcp_gateway.ToolCalls.{ResolvedTool, ResolvedToolsList}
use vyuu_mcp_gateway.VirtualServers.{VirtualServerToolCapability}
use vyuu_mcp_gateway.VirtualServers.Names.{_desired_exposed_name, is_in}
use vyuu_mcp_gateway.VirtualServers.Fresh.{_make_unique_total}
use vyuu_mcp_gateway.VirtualServers.Synthesis.{
  listed, candidate_of, resolved_as, expose, synthesize_tools,
}

abbrev pub DistinctTexts : List String → Type 0
DistinctTexts [] = Unit
DistinctTexts (x ∷ xs) = All (λ y. y ≢ x) xs × DistinctTexts xs

abbrev pub names_of : List ResolvedTool → List String
names_of tools = map (λ t. t.exposed_name) tools

abbrev pub target_of : ResolvedTool → ℕ × String
target_of t = (t.upstream_server_id, t.upstream_tool_name)

abbrev pub source_of : VirtualServerToolCapability → ℕ × String
source_of c = (c.server_id, c.tool_name)

abbrev Unused : List String → List String → Type 0
Unused used_names = All (λ name. is_in name used_names ≡ false)

Unused-other :
    (name : String) (used_names xs : List String)
    → Unused (name ∷ used_names) xs
    → All (λ y. y ≢ name) xs
Unused-other name used_names [] h = tt
Unused-other name used_names (x ∷ xs) (free, rest) = (
  λ same. absurd (ground (arith, (str_eq_iff x name).1 same, free)),
  Unused-other name used_names xs rest,
)

Unused-before :
    (name : String) (used_names xs : List String)
    → Unused (name ∷ used_names) xs
    → Unused used_names xs
Unused-before name used_names [] h = tt
Unused-before name used_names (x ∷ xs) (free, rest) =
    (ground (arith, free), Unused-before name used_names xs rest)

module _ (uuid_text : ℕ → String) (lower : String → String) (rename_map : Dict String String) where
  abbrev Exposed :
      List String → List String → List VirtualServerToolCapability → List ResolvedTool → Type 0
  Exposed desired_names used_names capabilities tools =
      (expose uuid_text lower rename_map desired_names used_names capabilities ≡ some tools)
      × DistinctTexts (names_of tools)
      × Unused used_names (names_of tools)
      × (map target_of tools ≡ map source_of capabilities)

  expose_total :
      (desired_names used_names : List String) (capabilities : List VirtualServerToolCapability)
      → (tools : List ResolvedTool) × Exposed desired_names used_names capabilities tools
  unfolding expose
  expose_total desired_names used_names [] = ([], (refl, tt, tt, refl))
  expose_total desired_names used_names (capability ∷ capabilities) =
      let candidate =
        candidate_of uuid_text lower desired_names capability
          (_desired_exposed_name uuid_text capability rename_map) in
      let (name, found, free) =
        _make_unique_total uuid_text candidate capability.server_id used_names in
      let (tools, (rest, distinct, unused, same)) =
        expose_total desired_names (name ∷ used_names) capabilities in
      (
        resolved_as uuid_text lower capability name ∷ tools,
        (
          rw found (rw rest refl),
          (Unused-other name used_names (names_of tools) unused, distinct),
          (free, Unused-before name used_names (names_of tools) unused),
          ap (◌∷◌ (source_of capability)) same,
        ),
      )

  -- synthesize_tools ends; it exposes each capability once, in order, with the server and the tool
  -- of the capability, and no two tools under one name.
  pub synthesize_tools_distinct :
      (capabilities : List VirtualServerToolCapability)
      → (list : ResolvedToolsList) × (synthesize_tools uuid_text lower capabilities rename_map
          ≡ some list)
        × DistinctTexts (names_of list.tools)
        × (map target_of list.tools ≡ map source_of capabilities)
  unfolding synthesize_tools
  synthesize_tools_distinct capabilities =
      let desired_names = map (λ c. _desired_exposed_name uuid_text c rename_map) capabilities in
      let (tools, (found, distinct, unused, same)) = expose_total desired_names [] capabilities in
      (
        record { tools = tools; required_scopes = []; jit_tools = []; vserver_id = none },
        ap listed found,
        distinct,
        same,
      )
