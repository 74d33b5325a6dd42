-- ===== src/VirtualServers/Synthesis/Shared.antt =====
-- The names of capabilities that ask for the same name.
use Prim.Native.Nat.{◌+◌, ◌<◌, ◌≤◌}
use Prim.Native.String.{count, ◌++◌ as append}
use text.Mathlib.TextLemmas.{length-append}
use vyuu_mcp_gateway.Prelude.{
  ℕ, zero, suc, String, Option, none, some, List, [], ◌∷◌, map, zip, ◌≡◌, ◌≢◌, refl, sym, ap, subst,
  ◌∙◌, arith, inl, inr, Bool-cases, Memᴰ, head_or_tail,
}
use vyuu_mcp_gateway.Dict.{Dict}
use vyuu_mcp_gateway.ToolCalls.{ResolvedTool, ResolvedToolsList}
use vyuu_mcp_gateway.VirtualServers.{VirtualServerToolCapability}
use vyuu_mcp_gateway.VirtualServers.Names.{
  _desired_exposed_name, _make_unique, is_in, unique_from, numbered, _prefix_from_display_name,
}
use vyuu_mcp_gateway.VirtualServers.Synthesis.{
  count_of, more, with_name, listed, candidate_of, resolved_as, expose, synthesize_tools,
}

unique_from-le :
    (rounds : ℕ) (base unique_candidate : String) (counter : ℕ) (used_names : List String)
    {name : String}
    → unique_from rounds base unique_candidate counter used_names ≡ some name
    → count base ≤ count unique_candidate
    → count base ≤ count name
unfolding unique_from numbered
unique_from-le zero base c counter used_names h le = absurd (ground arith)
unique_from-le (suc rounds) base c counter used_names {name} h le =
    elim (Bool-cases (is_in c used_names)) [
      | inl taken ↦
          unique_from-le rounds base (numbered base counter) (counter + 1) used_names
            (rw taken at h) (omega (arith, length-append base _))
      | inr free ↦ ground (arith, h, free)
    ]

_make_unique-le :
    (uuid_text : ℕ → String) (candidate : String) (server_id : ℕ) (used_names : List String)
    {name : String}
    → _make_unique uuid_text candidate server_id used_names ≡ some name
    → count candidate ≤ count name
unfolding _make_unique
_make_unique-le uuid_text candidate server_id used_names {name} h =
    elim (Bool-cases (is_in candidate used_names)) [
      | inl taken ↦
          let le = unique_from-le _ _ _ _ used_names (rw taken at h) (omega arith) in
          omega (arith, le, length-append candidate _)
      | inr free ↦ ground (arith, h, free)
    ]

prefixed-lt : (prefix name : String) → count name < count (append prefix (append "_" name))
prefixed-lt prefix name =
    omega (arith, length-append prefix (append "_" name), length-append "_" name)

with_name-some :
    (o : Option String) (k : String → Option (List ResolvedTool)) {tools : List ResolvedTool}
    → with_name o k ≡ some tools
    → (name : String) × (o ≡ some name) × (k name ≡ some tools)
with_name-some none k h = absurd (ground arith)
with_name-some (some name) k h = (name, refl, h)

more-some :
    (t : ResolvedTool) (o : Option (List ResolvedTool)) {tools : List ResolvedTool}
    → more t o ≡ some tools
    → (rest : List ResolvedTool) × (o ≡ some rest) × (t ∷ rest ≡ tools)
more-some t none h = absurd (ground arith)
more-some t (some rest) h = (rest, refl, ground arith)

listed-some :
    (o : Option (List ResolvedTool)) {list : ResolvedToolsList}
    → listed o ≡ some list
    → (tools : List ResolvedTool) × (o ≡ some tools) × (tools ≡ list.tools)
listed-some none h = absurd (ground arith)
listed-some (some tools) h = (tools, refl, ground arith)

module _ (uuid_text : ℕ → String) (lower : String → String) (rename_map : Dict String String) where
  abbrev pub desired : VirtualServerToolCapability → String
  desired c = _desired_exposed_name uuid_text c rename_map

  expose_prefixes :
      (desired_names used_names : List String) (capabilities : List VirtualServerToolCapability)
      {tools : List ResolvedTool} (c : VirtualServerToolCapability) (t : ResolvedTool)
      → expose uuid_text lower rename_map desired_names used_names capabilities ≡ some tools
      → Memᴰ (c, t) (zip capabilities tools)
      → 1 < count_of (desired c) desired_names
      → t.exposed_name ≢ desired c
  unfolding expose
  expose_prefixes desired_names used_names [] c t h m shared = elim m [ ]
  expose_prefixes desired_names used_names (first ∷ capabilities) {tools} c t h m shared =
      let (name, found, rest_found) = with_name-some _ _ h in
      let (rest, more_found, same) =
        more-some (resolved_as uuid_text lower first name) _ rest_found in
      elim (head_or_tail (subst (λ ts. Memᴰ (c, t) (zip (first ∷ capabilities) ts)) (sym same) m)) [
        | inl here ↦
            let is_first : c ≡ first = ap (λ p. p.0) here in
            let is_named : t.exposed_name ≡ name = ap (λ p. p.1.exposed_name) here in
            λ clash. absurd (
              prefixed_longer first name found
                (subst (λ x. 1 < count_of (desired x) desired_names) is_first shared)
                (sym is_named ∙ clash ∙ ap desired is_first))
        | inr later ↦
            expose_prefixes desired_names (name ∷ used_names) capabilities c t more_found later
              shared
      ]
    where
      prefixed_longer :
          (x : VirtualServerToolCapability) (name : String)
          → _make_unique uuid_text
              (candidate_of uuid_text lower desired_names x (desired x))
              x.server_id
              used_names
            ≡ some name
          → 1 < count_of (desired x) desired_names
          → name ≢ desired x
      prefixed_longer x name found twice clash =
          let le = _make_unique-le uuid_text _ x.server_id used_names found in
          let lt =
            prefixed-lt (_prefix_from_display_name lower x.server_display_name) (desired x) in
          ground (arith, le, lt, twice, ap count clash)

  -- Two capabilities that ask for one name: neither is exposed under that name.
  pub shared_name_not_exposed :
      (capabilities : List VirtualServerToolCapability) {list : ResolvedToolsList}
      (c : VirtualServerToolCapability) (t : ResolvedTool)
      → synthesize_tools uuid_text lower capabilities rename_map ≡ some list
      → Memᴰ (c, t) (zip capabilities list.tools)
      → 1 < count_of (desired c) (map desired capabilities)
      → t.exposed_name ≢ desired c
  unfolding synthesize_tools
  shared_name_not_exposed capabilities {list} c t h m shared =
      let (tools, found, same) = listed-some _ h in
      expose_prefixes (map desired capabilities) [] capabilities c t found
        (subst (λ ts. Memᴰ (c, t) (zip capabilities ts)) (sym same) m) shared
