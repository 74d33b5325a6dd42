-- ===== src/Prelude/Members.antt =====
-- The members of the lists that tests, comprehensions and joins run over.
use mathlib.Core.Path.{◌≡◌, refl, sym, ap, ◌∙◌}
use mathlib.Core.Logic.{◌⊎◌, inl, inr}
use mathlib.Core.Bool.{Bool, true}
use mathlib.Core.List.{List, [], ◌∷◌, ◌++◌, map, Memᴰ}
use mathlib.Core.Option.{some}
use native.Mathlib.Omega.{arith}
use vyuu_mcp_gateway.Prelude.Tests.{Bool-cases}
use vyuu_mcp_gateway.Prelude.Lists.{any, keep, find}

module _ {A : Type 0} where
  pub any_sound :
      (p : A → Bool) (xs : List A) → any p xs ≡ true → (x : A) × Memᴰ x xs × (p x ≡ true)
  any_sound p [] h = absurd (ground arith)
  any_sound p (x ∷ xs) h = elim (Bool-cases (p x)) [
    | inl e ↦ (x, Memᴰ.head refl, e)
    | inr e ↦ let (y, m, q) = any_sound p xs (ground arith) in (y, Memᴰ.tail m, q)
  ]

  pub any_complete : (p : A → Bool) {x : A} (xs : List A) → Memᴰ x xs → p x ≡ true → any p xs ≡ true
  any_complete p [] m h = elim m [ ]
  any_complete p (y ∷ xs) (Memᴰ.head e) h = rw (ap p (sym e) ∙ h)
  any_complete p (y ∷ xs) (Memᴰ.tail m) h = ground (arith, any_complete p xs m h)

  pub head_or_tail : {x y : A} {xs : List A} → Memᴰ x (y ∷ xs) → (x ≡ y) ⊎ Memᴰ x xs
  head_or_tail (Memᴰ.head e) = inl e
  head_or_tail (Memᴰ.tail m) = inr m

  pub keep_sound :
      (p : A → Bool) {x : A} (xs : List A) → Memᴰ x (keep p xs) → Memᴰ x xs × (p x ≡ true)
  keep_sound p [] m = elim m [ ]
  keep_sound p (y ∷ xs) m = elim (Bool-cases (p y)) [
    | inl e ↦ elim (head_or_tail (rw e at m)) [
      | inl q ↦ (Memᴰ.head q, rw q e)
      | inr t ↦ let (i, h) = keep_sound p xs t in (Memᴰ.tail i, h)
    ]
    | inr e ↦ let (i, h) = keep_sound p xs (rw e at m) in (Memᴰ.tail i, h)
  ]

  pub keep_complete :
      (p : A → Bool) {x : A} (xs : List A) → Memᴰ x xs → p x ≡ true → Memᴰ x (keep p xs)
  keep_complete p [] m h = elim m [ ]
  keep_complete p (y ∷ xs) (Memᴰ.head e) h = rw ((ap p (sym e) ∙ h)) (Memᴰ.head e)
  keep_complete p (y ∷ xs) (Memᴰ.tail m) h = elim (Bool-cases (p y)) [
    | inl e ↦ rw e (Memᴰ.tail (keep_complete p xs m h))
    | inr e ↦ rw e (keep_complete p xs m h)
  ]

  pub find_sound :
      (p : A → Bool) {x : A} (xs : List A) → find p xs ≡ some x → Memᴰ x xs × (p x ≡ true)
  find_sound p [] h = absurd (ground arith)
  find_sound p (y ∷ xs) h = elim (Bool-cases (p y)) [
    | inl e ↦ (Memᴰ.head (ground arith), ground arith)
    | inr e ↦ let (i, q) = find_sound p xs (ground arith) in (Memᴰ.tail i, q)
  ]

  pub append_left : {x : A} (xs ys : List A) → Memᴰ x xs → Memᴰ x (xs ++ ys)
  append_left [] ys m = elim m [ ]
  append_left (y ∷ xs) ys (Memᴰ.head e) = Memᴰ.head e
  append_left (y ∷ xs) ys (Memᴰ.tail m) = Memᴰ.tail (append_left xs ys m)

  pub append_right : {x : A} (xs ys : List A) → Memᴰ x ys → Memᴰ x (xs ++ ys)
  append_right [] ys m = m
  append_right (y ∷ xs) ys m = Memᴰ.tail (append_right xs ys m)

  pub append_sound : {x : A} (xs ys : List A) → Memᴰ x (xs ++ ys) → Memᴰ x xs ⊎ Memᴰ x ys
  append_sound [] ys m = inr m
  append_sound (y ∷ xs) ys (Memᴰ.head e) = inl (Memᴰ.head e)
  append_sound (y ∷ xs) ys (Memᴰ.tail m) = elim (append_sound xs ys m) [
    | inl l ↦ inl (Memᴰ.tail l)
    | inr r ↦ inr r
  ]

module _ {A B : Type 0} (f : A → B) where
  pub map_sound : {y : B} (xs : List A) → Memᴰ y (map f xs) → (x : A) × Memᴰ x xs × (y ≡ f x)
  map_sound [] m = elim m [ ]
  map_sound (x ∷ xs) (Memᴰ.head e) = (x, Memᴰ.head refl, e)
  map_sound (x ∷ xs) (Memᴰ.tail m) = let (z, i, e) = map_sound xs m in (z, Memᴰ.tail i, e)

  pub map_complete : {x : A} (xs : List A) → Memᴰ x xs → Memᴰ (f x) (map f xs)
  map_complete [] m = elim m [ ]
  map_complete (y ∷ xs) (Memᴰ.head e) = Memᴰ.head (ap f e)
  map_complete (y ∷ xs) (Memᴰ.tail m) = Memᴰ.tail (map_complete xs m)
