-- ===== src/VirtualServers/Fresh.antt =====
-- Why the `while` of `_make_unique` ends: the counted names differ from each other, so each round
-- that finds its candidate taken uses up a name.
use text.Mathlib.TextLemmas.{append_cancel_left}
use vyuu_mcp_gateway.Prelude.{
  ℕ, zero, suc, ◌+◌, ◌≤◌, ◌<◌, String, true, false, not, some, List, [], ◌∷◌, length, keep,
  any_sound, any_complete, keep_complete, Memᴰ, str_eq, str_eq_iff, ◌≡◌, refl, sym, ap, ◌∙◌, subst,
  arith, Bool-cases, inl, inr, Bool,
}
use vyuu_mcp_gateway.Prelude.Decimal.{decimal_inj}
use vyuu_mcp_gateway.VirtualServers.Names.{is_in, numbered, unique_from, _make_unique}

pub is_in_sound : (name : String) (names : List String) → is_in name names ≡ true → Memᴰ name names
is_in_sound name names h =
    let (x, m, e) = any_sound (str_eq name) names h in
    subst (λ z. Memᴰ z names) (sym ((str_eq_iff name x).0 e)) m

pub is_in_complete :
    (name : String) (names : List String) → Memᴰ name names → is_in name names ≡ true
is_in_complete name names m = any_complete (str_eq name) names m ((str_eq_iff name name).1 refl)

numbered_inj : (base : String) (j k : ℕ) → numbered base j ≡ numbered base k → j ≡ k
unfolding numbered
numbered_inj base j k h =
    decimal_inj j k (append_cancel_left "_" _ _ (append_cancel_left base _ _ h))

length-keep-le : {A : Type 0} (p : A → Bool) (xs : List A) → length (keep p xs) ≤ length xs
length-keep-le p [] = omega arith
length-keep-le p (x ∷ xs) = ground (arith, length-keep-le p xs)

-- A list without one of its members is shorter.
length-keep-lt :
    {A : Type 0} (p : A → Bool) {x : A} (xs : List A)
    → Memᴰ x xs
    → p x ≡ false
    → length (keep p xs) < length xs
length-keep-lt p [] m h = elim m [ ]
length-keep-lt p (y ∷ xs) (Memᴰ.head e) h =
    rw ((ap p (sym e) ∙ h)) (omega (arith, length-keep-le p xs))
length-keep-lt p (y ∷ xs) (Memᴰ.tail m) h = ground (arith, length-keep-lt p xs m h)

-- The counted names from `k` on that are taken are among `left`.
abbrev Covers : String → List String → ℕ → List String → Type 0
Covers base used_names k left =
    (j : ℕ) → k ≤ j → Memᴰ (numbered base j) used_names → Memᴰ (numbered base j) left

differs : String → String → Bool
differs a b = not (str_eq a b)

Covers-next :
    (base : String) (used_names : List String) (k : ℕ) (left : List String)
    → Covers base used_names k left
    → Covers base used_names (k + 1) (keep (differs (numbered base k)) left)
unfolding differs
Covers-next base used_names k left covers j above m =
    keep_complete (differs (numbered base k)) left (covers j (omega arith) m)
      (elim (Bool-cases (str_eq (numbered base k) (numbered base j))) [
        | inl same ↦ absurd (
            omega (
              arith,
              numbered_inj base k j ((str_eq_iff (numbered base k) (numbered base j)).0 same),
            ))
        | inr other ↦ rw other refl
      ])

differs_self : (a : String) → differs a a ≡ false
unfolding differs
differs_self a = rw ((str_eq_iff a a).1 refl) refl

unique_from_counted :
    (rounds : ℕ) (base : String) (k : ℕ) (used_names left : List String)
    → Covers base used_names k left
    → length left < rounds
    → (r : String) × (unique_from rounds base (numbered base k) (k + 1) used_names ≡ some r)
      × (is_in r used_names ≡ false)
unfolding unique_from
unique_from_counted zero base k used_names left covers h = absurd (ground arith)
unique_from_counted (suc rounds) base k used_names left covers h =
    elim (Bool-cases (is_in (numbered base k) used_names)) [
      | inl taken ↦ rw taken (
          unique_from_counted rounds base (k + 1) used_names (keep (differs (numbered base k)) left)
            (Covers-next base used_names k left covers) (shorter taken))
      | inr free ↦ (numbered base k, rw free refl, free)
    ]
  where
    shorter :
        is_in (numbered base k) used_names ≡ true
        → length (keep (differs (numbered base k)) left) < rounds
    shorter taken =
        let lt =
          length-keep-lt (differs (numbered base k)) left
            (covers k (omega arith) (is_in_sound _ used_names taken)) (differs_self _) in
        omega (arith, lt)

pub unique_from_total :
    (base : String) (used_names : List String)
    → (r : String) × (unique_from (length used_names + 2) base base 2 used_names ≡ some r)
      × (is_in r used_names ≡ false)
unfolding unique_from
unique_from_total base used_names =
    go (length used_names + 1) (omega arith) (length used_names + 2) (omega arith)
  where
    go :
        (more : ℕ)
        → length used_names < more
        → (rounds : ℕ) → rounds ≡ suc more
        → (r : String) × (unique_from rounds base base 2 used_names ≡ some r)
          × (is_in r used_names ≡ false)
    go more enough zero e = absurd (ground arith)
    go more enough (suc rounds) e = elim (Bool-cases (is_in base used_names)) [
      | inl taken ↦
          rw taken
            (unique_from_counted rounds base 2 used_names used_names (λ j h m. m) (omega arith))
      | inr free ↦ (base, rw free refl, free)
    ]

-- _make_unique ends, with a name that is not in use.
pub _make_unique_total :
    (uuid_text : ℕ → String) (candidate : String) (server_id : ℕ) (used_names : List String)
    → (name : String) × (_make_unique uuid_text candidate server_id used_names ≡ some name)
      × (is_in name used_names ≡ false)
unfolding _make_unique
_make_unique_total uuid_text candidate server_id used_names =
    elim (Bool-cases (is_in candidate used_names)) [
      | inl taken ↦ rw taken (unique_from_total _ used_names)
      | inr free ↦ (candidate, rw free refl, free)
    ]
