-- ===== src/Dict.antt =====
-- Python's `dict` with keys of any type that has an equality, as an association list in insertion
-- order. Its clients use the laws below.
use vyuu_mcp_gateway.Prelude.{
  Eq, ◌≡◌, refl, true, Option, none, some, List, [], ◌∷◌, map, Memᴰ, Bool-cases, inl, inr, sym,
  arith, if◌then◌else◌,
}

abbrev pub Dict : Type 0 → Type 0 → Type 0
Dict K V = List (K × V)

pub beq_refl : {K : Type 0} ⦃e : Eq K⦄ (k : K) → e.beq k k ≡ true
beq_refl ⦃e⦄ k = (e.beq_iff k k).1 refl

module _ {K V : Type 0} ⦃e : Eq K⦄ where
  -- d.get(k)
  unfoldable pub get : Dict K V → K → Option V
  get [] k = none
  get ((j, v) ∷ d) k = let rest = get d k in if e.beq j k then some v else rest

  -- d[k] = v: a key that is there keeps its place.
  unfoldable pub put : Dict K V → K → V → Dict K V
  put [] k v = (k, v) ∷ []
  put ((j, w) ∷ d) k v = let rest = put d k v in if e.beq j k then (j, v) ∷ d else (j, w) ∷ rest

  -- d.pop(k, None)
  unfoldable pub pop : Dict K V → K → Dict K V
  pop [] k = []
  pop ((j, w) ∷ d) k = let rest = pop d k in if e.beq j k then rest else (j, w) ∷ rest

  pub get-put :
      (d : Dict K V) (k j : K) (v : V) → get (put d k v) j ≡ (if e.beq k j then some v else get d j)
  unfolding get put
  get-put [] k j v = refl
  get-put ((i, w) ∷ d) k j v =
      ground (arith, e.beq_iff i k, e.beq_iff i j, e.beq_iff k j, get-put d k j v)

  pub get-pop : (d : Dict K V) (k j : K) → get (pop d k) j ≡ (if e.beq k j then none else get d j)
  unfolding get pop
  get-pop [] k j = ground arith
  get-pop ((i, w) ∷ d) k j =
      ground (arith, e.beq_iff i k, e.beq_iff i j, e.beq_iff k j, get-pop d k j)

-- list(d)
unfoldable pub keys : {K V : Type 0} → Dict K V → List K
keys d = map (λ r. r.0) d

pub get-keys :
    {K V : Type 0} ⦃e : Eq K⦄ (d : Dict K V) (k : K) {v : V} → get d k ≡ some v → Memᴰ k (keys d)
unfolding get keys
get-keys [] k h = absurd (ground arith)
get-keys ⦃e⦄ ((j, w) ∷ d) k h = elim (Bool-cases (e.beq j k)) [
  | inl same ↦ Memᴰ.head (sym ((e.beq_iff j k).0 same))
  | inr other ↦ Memᴰ.tail (get-keys d k (rw other at h))
]

pub ruleset dict_laws = (get-put, get-pop, beq_refl)
