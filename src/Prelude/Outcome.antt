-- ===== src/Prelude/Outcome.antt =====
-- A call that returns or raises.
use mathlib.Core.Path.{◌≡◌, refl, ap}
use mathlib.Core.Bool.{Bool, true, false}

pub data Result {ℓ} (E A : Type ℓ) : Type ℓ where
  ok : A → Result E A
  raise : E → Result E A

infixl 5 ◌>>=◌ ◌>>◌
abbrev pub ◌>>=◌ {ℓ} : {E A B : Type ℓ} → Result E A → (A → Result E B) → Result E B
ok a >>= f = f a
raise e >>= f = raise e

abbrev pub ◌>>◌ {ℓ} : {E A B : Type ℓ} → Result E A → Result E B → Result E B
m >> k = m >>= λ _. k

-- `if bad: raise e`
abbrev pub raise_if : {E : Type 0} → Bool → E → Result E (Unit {0})
raise_if true e = raise e
raise_if false e = ok tt

-- What a chain that returned went through.
pub bind-ok :
    {E A B : Type 0} (m : Result E A) (f : A → Result E B) {b : B}
    → (m >>= f) ≡ ok b
    → (a : A) × (m ≡ ok a) × (f a ≡ ok b)
bind-ok (ok a) f h = (a, refl, h)
bind-ok (raise e) f h = cc

pub raise_if-ok : {E : Type 0} (b : Bool) (e : E) {u : Unit {0}} → raise_if b e ≡ ok u → b ≡ false
raise_if-ok true e h = cc
raise_if-ok false e h = refl

-- The state that a call returned beside its value.
pub ok-state :
    {E A B : Type 0} {x : A} {y : B} {out : A × B}
    → ◌≡◌ {A = Result E (A × B)} (ok (x, y)) (ok out)
    → x ≡ out.0
ok-state {E} {A} {B} {x} {y} h = ap state h
  where
    state : Result E (A × B) → A
    state (ok r) = r.0
    state (raise e) = x
