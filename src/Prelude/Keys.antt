-- ===== src/Prelude/Keys.antt =====
-- The keys of a Python dictionary: types with a Boolean equality.
use mathlib.Core.Path.{◌≡◌}
use mathlib.Core.Logic.{◌↔◌}
use mathlib.Core.Bool.{Bool, true, ◌&&◌}
use Prim.Native.Nat.{ℕ}
use Prim.Native.String.{String}
use native.Mathlib.Omega.{arith}
use text.Mathlib.Text.{◌==◌ as str_eq}
use text.Mathlib.TextEquality.{eq_iff}
use vyuu_mcp_gateway.Prelude.Tests.{◌==◌, ==_iff}

pub record Eq {ℓ} (A : Type ℓ) : Type ℓ where
  pub beq : A → A → Bool
  pub beq_iff : (a b : A) → (beq a b ≡ true) ↔ (a ≡ b)

instance abbrev pub nat_eq : Eq ℕ
nat_eq = record { beq = ◌==◌; beq_iff = ==_iff }

instance abbrev pub text_eq : Eq String
text_eq = record { beq = str_eq; beq_iff = eq_iff }

module _ {A B : Type 0} ⦃a : Eq A⦄ ⦃b : Eq B⦄ where
  pub pair_beq_iff : (x y : A × B) → ((a.beq x.0 y.0 && b.beq x.1 y.1) ≡ true) ↔ (x ≡ y)
  pair_beq_iff x y = ground (arith, a.beq_iff x.0 y.0, b.beq_iff x.1 y.1)

  instance abbrev pub pair_eq : Eq (A × B)
  pair_eq = record { beq = λ x y. a.beq x.0 y.0 && b.beq x.1 y.1; beq_iff = pair_beq_iff }
