-- ===== src/Providers/Chain/First.antt =====
-- Which provider of a chain answers.
use vyuu_mcp_gateway.Prelude.{
  ℕ, String, List, [], ◌∷◌, ◌++◌, All, Result, ok, raise, ◌≡◌, ◌↔◌, refl, ap, ◌∙◌, arith, ◌⊎◌, inl,
  inr,
}
use vyuu_mcp_gateway.Access.{Principal}
use vyuu_mcp_gateway.Providers.Chain.{IdentityProvider, try_each, validate_principal}

Result-cases : {E A : Type 0} (r : Result E A) → ((a : A) × (r ≡ ok a)) ⊎ ((e : E) × (r ≡ raise e))
Result-cases (ok a) = inl (a, refl)
Result-cases (raise e) = inr (e, refl)

module _ {C : Type 0} (tenant : ℕ) (credentials : C) where
  -- The provider refuses the credentials.
  abbrev pub Refuses : IdentityProvider C → Type 0
  Refuses p = (e : String) × (p tenant credentials ≡ raise e)

  -- One of the providers accepts them as this principal, and those before it refuse them.
  pub record FirstOf (providers : List (IdentityProvider C)) (principal : Principal) : Type 0 where
    pub before : List (IdentityProvider C)
    pub provider : IdentityProvider C
    pub after : List (IdentityProvider C)
    pub split : providers ≡ before ++ provider ∷ after
    pub refused : All Refuses before
    pub accepted : provider tenant credentials ≡ ok principal

  try_each_sound :
      (last : String) (providers : List (IdentityProvider C)) {principal : Principal}
      → try_each C tenant credentials last providers ≡ ok principal
      → FirstOf providers principal
  try_each_sound last [] h = absurd (ground arith)
  try_each_sound last (p ∷ ps) h = elim (Result-cases (p tenant credentials)) [
    | inl (principal, accepts) ↦ record {
      before = [];
      provider = p;
      after = ps;
      split = refl;
      refused = tt;
      accepted = accepts ∙ rw accepts at h;
    }
    | inr (e, refuses) ↦
        let rest = try_each_sound e ps (rw refuses at h) in
        record {
          before = p ∷ rest.before;
          provider = rest.provider;
          after = rest.after;
          split = ap (◌∷◌ p) rest.split;
          refused = ((e, refuses), rest.refused);
          accepted = rest.accepted;
        }
  ]

  try_each_complete :
      (last : String) (before : List (IdentityProvider C)) (p : IdentityProvider C)
      (after : List (IdentityProvider C)) {principal : Principal}
      → All Refuses before
      → p tenant credentials ≡ ok principal
      → try_each C tenant credentials last (before ++ p ∷ after) ≡ ok principal
  try_each_complete last [] p after none_before accepts = rw accepts refl
  try_each_complete last (q ∷ before) p after ((e, refuses), refused) accepts =
      rw refuses (try_each_complete e before p after refused accepts)

  -- A chain accepts credentials as a principal exactly if a provider does and all before it refuse.
  pub validate_principal_exact :
      (providers : List (IdentityProvider C)) (principal : Principal)
      → (validate_principal C providers tenant credentials ≡ ok principal)
        ↔ FirstOf providers principal
  unfolding validate_principal
  validate_principal_exact providers principal = (
    try_each_sound "" providers,
    λ f.
        ap (try_each C tenant credentials "") f.split
        ∙ try_each_complete "" f.before f.provider f.after f.refused f.accepted,
  )
