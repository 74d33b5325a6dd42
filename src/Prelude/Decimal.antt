-- ===== src/Prelude/Decimal.antt =====
-- Python's `str` of an integer that is not negative: its decimal digits.
use Prim.Native.Nat.{ℕ, zero, suc, ◌+◌, ◌-◌, ◌*◌, ◌/◌, ◌%◌, ◌<◌}
use Prim.Native.Char.{Char, code}
use Prim.Native.String.{String, [], ◌∷◌}
use mathlib.Core.Path.{◌≡◌, refl, sym, ap, ◌∙◌}
use mathlib.Core.Logic.{inl, inr}
use native.Mathlib.Omega.{arith}
use vyuu_mcp_gateway.Prelude.Tests.{Bool-cases, ltb, if◌then◌else◌}

digit : ℕ → Char
digit zero = "0"
digit (suc zero) = "1"
digit (suc (suc zero)) = "2"
digit (suc (suc (suc zero))) = "3"
digit (suc (suc (suc (suc zero)))) = "4"
digit (suc (suc (suc (suc (suc zero))))) = "5"
digit (suc (suc (suc (suc (suc (suc zero)))))) = "6"
digit (suc (suc (suc (suc (suc (suc (suc zero))))))) = "7"
digit (suc (suc (suc (suc (suc (suc (suc (suc zero)))))))) = "8"
digit _ = "9"

-- The digits of `n` before `out`, in at most as many rounds as the first argument says.
digits : ℕ → ℕ → String → String
digits zero n out = out
digits (suc rounds) n out =
    let rest = digits rounds (n / 10) (digit (n % 10) ∷ out) in
    if ltb n 10 then digit n ∷ out else rest

unfoldable pub decimal : ℕ → String
unfolding digit digits
decimal n = digits (suc n) n []

decimal_runs : decimal 1070 ≡ "1070"
unfolding decimal
decimal_runs = refl

value : ℕ → String → ℕ
value n [] = n
value n (c ∷ s) = value (n * 10 + (code c - 48)) s

code-digit : (n : ℕ) → n < 10 → code (digit n) - 48 ≡ n
unfolding digit
code-digit zero h = refl
code-digit (suc zero) h = refl
code-digit (suc (suc zero)) h = refl
code-digit (suc (suc (suc zero))) h = refl
code-digit (suc (suc (suc (suc zero)))) h = refl
code-digit (suc (suc (suc (suc (suc zero))))) h = refl
code-digit (suc (suc (suc (suc (suc (suc zero)))))) h = refl
code-digit (suc (suc (suc (suc (suc (suc (suc zero))))))) h = refl
code-digit (suc (suc (suc (suc (suc (suc (suc (suc zero)))))))) h = refl
code-digit (suc (suc (suc (suc (suc (suc (suc (suc (suc zero))))))))) h = refl
code-digit (suc (suc (suc (suc (suc (suc (suc (suc (suc (suc n)))))))))) h = absurd (omega arith)

value-digits :
    (rounds n : ℕ) (out : String) → n < rounds → value 0 (digits rounds n out) ≡ value n out
unfolding digits value
value-digits zero n out h = absurd (ground arith)
value-digits (suc rounds) n out h = elim (Bool-cases (ltb n 10)) [
  | inl small ↦ rw small (ap (λ m. value m out) (last_of (code-digit n (ground arith))))
  | inr big ↦ rw big (
      value-digits rounds (n / 10) (digit (n % 10) ∷ out) (ground arith)
      ∙ ap (λ m. value m out) (last (code-digit (n % 10) (omega arith))))
]
  where
    last_of : {d : ℕ} → d ≡ n → 0 * 10 + d ≡ n
    last_of e = omega (arith, e)

    last : {d : ℕ} → d ≡ n % 10 → n / 10 * 10 + d ≡ n
    last e = omega (arith, e)

value-decimal : (n : ℕ) → value 0 (decimal n) ≡ n
unfolding decimal value
value-decimal n = value-digits (suc n) n [] (omega arith)

pub decimal_inj : (m n : ℕ) → decimal m ≡ decimal n → m ≡ n
decimal_inj m n h = sym (value-decimal m) ∙ ap (value 0) h ∙ value-decimal n
