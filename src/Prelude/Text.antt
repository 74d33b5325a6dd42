-- ===== src/Prelude/Text.antt =====
-- Python's `str.strip` over the code points of a text.
use Prim.Native.Nat.{ℕ, zero, suc}
use Prim.Native.String.{◌++◌ as append}
use Prim.Native.Char.{Char, code}
use Prim.Native.String.{String, [], ◌∷◌}
use mathlib.Core.Path.{◌≡◌, refl}
use mathlib.Core.List.{List}
use Prim.Native.String.{compare}
use Prim.Native.Nat.{Ordering}
use mathlib.Core.Bool.{Bool, true, ◌&&◌, ◌||◌}
use text.Mathlib.Text.{◌==◌ as str_eq}
use text.Mathlib.TextEquality.{eq_iff as str_eq_iff}
use mathlib.Core.Logic.{inl, inr}
use mathlib.Core.Path.{ap, sym, ◌∙◌}
use text.Mathlib.TextLemmas.{nil-append, cons-append}
use vyuu_mcp_gateway.Prelude.Tests.{Bool-cases, ◌==◌, leb, if◌then◌else◌}

-- The code points that `str.isspace` accepts.
pub is_space : ℕ → Bool
is_space c =
    (leb 9 c && leb c 13)
    || (leb 28 c && leb c 32)
    || (c == 133)
    || (c == 160)
    || (c == 5760)
    || (leb 8192 c && leb c 8202)
    || (c == 8232)
    || (c == 8233)
    || (c == 8239)
    || (c == 8287)
    || (c == 12288)

lstrip : String → String
lstrip [] = []
lstrip (c ∷ s) = let rest = lstrip s in if is_space (code c) then rest else c ∷ s

rstrip : String → String
rstrip [] = []
rstrip (c ∷ s) = let rest = rstrip s in if is_space (code c) && str_eq rest "" then [] else c ∷ rest

unfoldable pub strip : String → String
unfolding is_space lstrip rstrip
strip s = rstrip (lstrip s)

-- `sorted` on texts: `compare` orders by code points, as Python does.
insert_text : String → List String → List String
insert_text s List.[] = List.◌∷◌ s List.[]
insert_text s (List.◌∷◌ t ts) =
    let rest = insert_text s ts in
    elim (compare s t) [ Ordering.gt ↦ List.◌∷◌ t rest | _ ↦ List.◌∷◌ s (List.◌∷◌ t ts) ]

unfoldable pub sort_texts : List String → List String
unfolding insert_text
sort_texts List.[] = List.[]
sort_texts (List.◌∷◌ s ts) = insert_text s (sort_texts ts)

sorted_names :
    sort_texts (List.◌∷◌ "b" (List.◌∷◌ "a" (List.◌∷◌ "ba" List.[])))
    ≡ List.◌∷◌ "a" (List.◌∷◌ "b" (List.◌∷◌ "ba" List.[]))
unfolding sort_texts
sorted_names = refl

strip_both_ends : strip "  ab c\t " ≡ "ab c"
unfolding strip
strip_both_ends = refl

strip_blank : strip " \t " ≡ ""
unfolding strip
strip_blank = refl

-- `s[:n]`
unfoldable pub first : ℕ → String → String
first zero s = []
first (suc n) [] = []
first (suc n) (c ∷ s) = c ∷ first n s

-- `sep.join(texts)`
unfoldable pub join : String → List String → String
join sep List.[] = ""
join sep (List.◌∷◌ s List.[]) = s
join sep (List.◌∷◌ s (List.◌∷◌ t ts)) = append s (append sep (join sep (List.◌∷◌ t ts)))

-- `s.lstrip(".")`
unfoldable pub lstrip_dots : String → String
lstrip_dots [] = []
lstrip_dots (c ∷ s) = let rest = lstrip_dots s in if code c == 46 then rest else c ∷ s

-- `s.endswith(t)`
unfoldable pub ends_with : String → String → Bool
ends_with [] t = str_eq "" t
ends_with (c ∷ s) t = let later = ends_with s t in if str_eq (c ∷ s) t then true else later

pub ends_with_sound :
    (s t : String) → ends_with s t ≡ true → (label : String) × (s ≡ append label t)
unfolding ends_with
ends_with_sound [] t h = ([], (str_eq_iff [] t).0 h ∙ sym (nil-append t))
ends_with_sound (c ∷ s) t h = elim (Bool-cases (str_eq (c ∷ s) t)) [
  | inl e ↦ ([], (str_eq_iff (c ∷ s) t).0 e ∙ sym (nil-append t))
  | inr e ↦
      let (label, same) = ends_with_sound s t (rw e at h) in
      (c ∷ label, ap (◌∷◌ c) same ∙ sym (cons-append c label t))
]

ends_with_self : (t : String) → ends_with t t ≡ true
unfolding ends_with
ends_with_self [] = refl
ends_with_self (c ∷ t) = rw ((str_eq_iff (c ∷ t) (c ∷ t)).1 refl) refl

ends_with_cons : (c : Char) (s t : String) → ends_with s t ≡ true → ends_with (c ∷ s) t ≡ true
unfolding ends_with
ends_with_cons c s t h = elim (Bool-cases (str_eq (c ∷ s) t)) [ inl e ↦ rw e refl | inr e ↦ rw e h ]

pub ends_with_complete : (label t : String) → ends_with (append label t) t ≡ true
ends_with_complete [] t = ap (λ x. ends_with x t) (nil-append t) ∙ ends_with_self t
ends_with_complete (c ∷ label) t =
    ap (λ x. ends_with x t) (cons-append c label t)
    ∙ ends_with_cons c (append label t) t (ends_with_complete label t)
