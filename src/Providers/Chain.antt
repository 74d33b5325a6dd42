-- ===== src/Providers/Chain.antt =====
-- `ChainedIdentityProvider`. A provider is what its `validate_principal` answers for a tenant and
-- credentials; an `IdentityValidationError` is its message.
pub mod First
use vyuu_mcp_gateway.Prelude.{
  ℕ, String, Bool, true, false, not, Option, none, some, List, [], ◌∷◌, ◌++◌, All, Memᴰ, Result, ok,
  raise, ◌≡◌, ◌≢◌, refl, ap, arith, ◌⊎◌, inl, inr,
}
use vyuu_mcp_gateway.Access.{Principal}

module _ (C : Type 0) where
  abbrev pub IdentityProvider : Type 0
  IdentityProvider = ℕ → C → Result String Principal

  pub data ChainError : Type 0 where
    at_least_one_provider : ChainError

  unfoldable pub new_chain : List IdentityProvider → Result ChainError (List IdentityProvider)
  new_chain [] = raise at_least_one_provider
  new_chain (p ∷ ps) = ok (p ∷ ps)

  -- `last` is the error so far; a chain is not empty, so its first value is never raised.
  abbrev pub try_each : ℕ → C → String → List IdentityProvider → Result String Principal
  try_each tenant credentials last [] = raise last
  try_each tenant credentials last (p ∷ ps) = elim (p tenant credentials) [
    | ok principal ↦ ok principal
    | raise e ↦ try_each tenant credentials e ps
  ]

  unfoldable pub validate_principal : List IdentityProvider → ℕ → C → Result String Principal
  validate_principal providers tenant credentials = try_each tenant credentials "" providers
