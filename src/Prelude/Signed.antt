-- ===== src/Prelude/Signed.antt =====
-- Python integers that a caller may pass with any sign. `negsuc n` is -(n + 1).
use Prim.Native.Nat.{ℕ}
use mathlib.Core.Bool.{Bool, true, false}
use vyuu_mcp_gateway.Prelude.Tests.{◌==◌, ltb}

pub data ℤ : Type 0 where
  pos : ℕ → ℤ
  negsuc : ℕ → ℤ

-- n <= 0
abbrev pub is_nonpositive : ℤ → Bool
is_nonpositive (pos n) = n == 0
is_nonpositive (negsuc n) = true

-- n == 0
abbrev pub is_zero : ℤ → Bool
is_zero (pos n) = n == 0
is_zero (negsuc n) = false

-- n > m, for a limit that is never negative
abbrev pub exceeds : ℤ → ℕ → Bool
exceeds (pos n) m = ltb m n
exceeds (negsuc n) m = false

-- The value of an integer that a test has shown to be at least 0.
abbrev pub to_ℕ : ℤ → ℕ
to_ℕ (pos n) = n
to_ℕ (negsuc n) = 0
