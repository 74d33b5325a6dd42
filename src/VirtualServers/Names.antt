-- ===== src/VirtualServers/Names.antt =====
-- The names that the tools of a virtual server are exposed under. `uuid_text` is `str` of a UUID,
-- `lower` is `str.lower`; sets of names are lists.
use Prim.Native.Char.{code}
use Prim.Native.String.{◌++◌ as append, [], ◌∷◌}
use vyuu_mcp_gateway.Prelude.{
  text_eq, ℕ, zero, suc, ◌+◌, String, Bool, true, false, not, ◌&&◌, ◌||◌, Option, none, some, List,
  length, any, leb, ◌==◌, if◌then◌else◌, str_eq, ◌≡◌, refl,
}
use vyuu_mcp_gateway.Prelude.Text.{strip}
use vyuu_mcp_gateway.Prelude.Decimal.{decimal}
use vyuu_mcp_gateway.Dict.{Dict, get}
use vyuu_mcp_gateway.VirtualServers.{VirtualServerToolCapability}

-- `[a-zA-Z0-9]`
is_alphanumeric : ℕ → Bool
is_alphanumeric c = (leb 48 c && leb c 57) || (leb 65 c && leb c 90) || (leb 97 c && leb c 122)

-- `re.sub(r"[^a-zA-Z0-9]+", "_", s)`; `gap` says that the run of other characters has had its `_`.
replace_runs : Bool → String → String
replace_runs gap [] = []
replace_runs gap (c ∷ s) =
    let kept = replace_runs false s in
    let skipped = replace_runs true s in
    if is_alphanumeric (code c) then c ∷ kept else if gap then skipped else "_" ∷ skipped

-- `s.strip("_")`
lstrip_underscores : String → String
lstrip_underscores [] = []
lstrip_underscores (c ∷ s) = let rest = lstrip_underscores s in if code c == 95 then rest else c ∷ s

rstrip_underscores : String → String
rstrip_underscores [] = []
rstrip_underscores (c ∷ s) =
    let rest = rstrip_underscores s in if code c == 95 && str_eq rest "" then [] else c ∷ rest

-- `a or b` of texts
abbrev pub text_or : String → String → String
text_or a b = if str_eq a "" then b else a

unfoldable pub _prefix_from_display_name : (String → String) → String → String
unfolding strip is_alphanumeric replace_runs lstrip_underscores rstrip_underscores
_prefix_from_display_name lower display_name =
    text_or
      (rstrip_underscores (lstrip_underscores (replace_runs false (lower (strip display_name)))))
      "server"

prefix_runs : _prefix_from_display_name (λ s. s) " _git hub / v2! " ≡ "git_hub_v2"
unfolding _prefix_from_display_name
prefix_runs = refl

-- `d.get(key) or b`
abbrev renamed_or : Option String → String → String
renamed_or none b = b
renamed_or (some a) b = text_or a b

unfoldable pub _desired_exposed_name :
    (ℕ → String) → VirtualServerToolCapability → Dict String String → String
unfolding get
_desired_exposed_name uuid_text capability rename_map =
    renamed_or (get rename_map (append (uuid_text server_id) (append ":" tool_name)))
      (renamed_or (get rename_map tool_name) tool_name)
  where
    open capability use {server_id, tool_name}

-- `s.split("-", maxsplit=1)[0]`
unfoldable pub before_dash : String → String
before_dash [] = []
before_dash (c ∷ s) = let rest = before_dash s in if code c == 45 then [] else c ∷ rest

-- `name in names`
abbrev pub is_in : String → List String → Bool
is_in name names = any (str_eq name) names

-- f"{candidate}_{suffix}_{counter}"
unfoldable pub numbered : String → ℕ → String
unfolding decimal
numbered base counter = append base (append "_" (decimal counter))

-- The `while` of `_make_unique`; `base` is f"{candidate}_{suffix}". `none`: the rounds ran out.
unfoldable pub unique_from : ℕ → String → String → ℕ → List String → Option String
unfolding numbered
unique_from zero base unique_candidate counter used_names = none
unique_from (suc rounds) base unique_candidate counter used_names =
    let next = unique_from rounds base (numbered base counter) (counter + 1) used_names in
    if is_in unique_candidate used_names then next else some unique_candidate

-- Two rounds more than there are names.
unfoldable pub _make_unique : (ℕ → String) → String → ℕ → List String → Option String
unfolding before_dash unique_from
_make_unique uuid_text candidate server_id used_names =
    let base = append candidate (append "_" (before_dash (uuid_text server_id))) in
    let found = unique_from (length used_names + 2) base base 2 used_names in
    if not (is_in candidate used_names) then some candidate else found
