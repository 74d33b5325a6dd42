-- ===== src/Audit/Lines.antt =====
-- Python's `str.splitlines`, and the length of a text in UTF-8.
use vyuu_mcp_gateway.Prelude.{
  ℕ, ◌+◌, Bool, true, false, ◌&&◌, ◌||◌, List, [], ◌∷◌, ◌++◌, All, ltb, leb, ◌==◌, ◌≡◌, refl, sym,
  ap, ◌∙◌, if◌then◌else◌,
}
use mathlib.Core.List.{append_assoc, append-nil}

abbrev pub Text : Type 0
Text = List ℕ

abbrev pub line_feed : ℕ
line_feed = 10

-- The bytes of one code point.
abbrev pub utf8_width : ℕ → ℕ
utf8_width c = if ltb c 128 then 1 else if ltb c 2048 then 2 else if ltb c 65536 then 3 else 4

-- len(text.encode("utf-8"))
unfoldable pub utf8_length : Text → ℕ
utf8_length [] = 0
utf8_length (c ∷ cs) = utf8_width c + utf8_length cs

-- The code points at which `splitlines` ends a line.
unfoldable pub is_boundary : ℕ → Bool
is_boundary c =
    (leb 10 c && leb c 13) || (leb 28 c && leb c 30) || c == 133 || c == 8232 || c == 8233

abbrev pub is_empty : Text → Bool
is_empty [] = true
is_empty (_ ∷ _) = false

-- `current` is the line so far; `after_cr` says that the last line ended in a carriage return, which
-- takes a line feed with it.
unfoldable pub lines_from : Bool → Text → Text → List Text
unfolding is_boundary
lines_from after_cr current [] = if is_empty current then [] else current ∷ []
lines_from after_cr current (c ∷ cs) =
    let skip = lines_from false current cs in
    let next = lines_from (c == 13) [] cs in
    let same = lines_from false (current ++ c ∷ []) cs in
    if after_cr && c == 10 then skip else if is_boundary c then current ∷ next else same

unfoldable pub splitlines : Text → List Text
unfolding lines_from
splitlines text = lines_from false [] text

-- No line ends within the text.
abbrev pub OneLine : Text → Type 0
OneLine = All (λ c. is_boundary c ≡ false)

lines_from-boundary :
    (current line : Text) (c : ℕ) (rest : Text)
    → OneLine line
    → is_boundary c ≡ true
    → lines_from false current (line ++ c ∷ rest) ≡ (current ++ line) ∷ lines_from (c == 13) [] rest
unfolding lines_from
lines_from-boundary current [] c rest h ends =
    rw ends (ap (λ l. l ∷ lines_from (c == 13) [] rest) (sym (append-nil current)))
lines_from-boundary current (d ∷ line) c rest (plain, h) ends = rw plain (
    lines_from-boundary (current ++ d ∷ []) line c rest h ends
    ∙ ap (λ l. l ∷ lines_from (c == 13) [] rest) (append_assoc current (d ∷ []) line))

-- A line with its line feed is the first of the lines.
pub splitlines-line :
    (line rest : Text)
    → OneLine line
    → splitlines (line ++ line_feed ∷ rest) ≡ line ∷ splitlines rest
unfolding splitlines is_boundary
splitlines-line line rest h = lines_from-boundary [] line line_feed rest h refl

-- The first line ends at the first boundary, whichever it is.
pub splitlines-boundary :
    (line : Text) (c : ℕ) (rest : Text)
    → OneLine line
    → is_boundary c ≡ true
    → splitlines (line ++ c ∷ rest) ≡ line ∷ lines_from (c == 13) [] rest
unfolding splitlines
splitlines-boundary line c rest h ends = lines_from-boundary [] line c rest h ends

line_separator :
    splitlines (65 ∷ 8232 ∷ 66 ∷ 10 ∷ 10 ∷ 67 ∷ 13 ∷ 10 ∷ [])
    ≡ (65 ∷ []) ∷ (66 ∷ []) ∷ [] ∷ (67 ∷ []) ∷ []
unfolding splitlines
line_separator = refl
