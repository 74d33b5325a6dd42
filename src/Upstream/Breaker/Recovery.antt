-- ===== src/Upstream/Breaker/Recovery.antt =====
-- How a breaker opens, rejects, probes and closes again.
use vyuu_mcp_gateway.Prelude.{
  ℕ, ◌+◌, ◌≤◌, ◌<◌, ◌≡◌, true, false, Option, none, some, List, [], ◌∷◌, map, arith, ltb,
  if◌then◌else◌, All, length, refl, ap, ◌∙◌,
}
use native.Mathlib.Decide.{dec_lt}
use native.Mathlib.Nat.{zero-add}
use vyuu_mcp_gateway.Upstream.Breaker.{
  closed, open_, half_open, CircuitBreakerConfig, config_accepted, CircuitBreaker, new, Refusal,
  breaker_open, breaker_half_open, before_call, record_success, record_failure,
}
use vyuu_mcp_gateway.Upstream.Breaker.Invariant.{Call, before, success, failure, run}

-- Calls that fail, one after another, at these times.
pub failures : List ℕ → List Call
failures = map failure

-- Calls that are admitted and succeed, one after another, at these times.
pub rounds : List ℕ → List Call
rounds [] = []
rounds (t ∷ times) = before t ∷ success ∷ rounds times

-- What `before_call` answers at each of these times, nothing being recorded between.
pub answers : CircuitBreakerConfig → CircuitBreaker → List ℕ → List (Option Refusal)
answers c b [] = []
answers c b (t ∷ times) = (before_call c t b).1 ∷ answers c (before_call c t b).0 times

module _ (c : CircuitBreakerConfig) where
  failure_counts :
      (b : CircuitBreaker) (t : ℕ)
      → b.state ≡ closed
      → b.consecutive_failures + 1 < c.failure_threshold
      → ((record_failure c t b).state ≡ closed)
        × ((record_failure c t b).consecutive_failures ≡ b.consecutive_failures + 1)
  unfolding record_failure
  failure_counts b t s h = ground arith

  failure_opens :
      (b : CircuitBreaker) (t : ℕ)
      → b.state ≡ closed
      → c.failure_threshold ≤ b.consecutive_failures + 1
      → (record_failure c t b).state ≡ open_
  unfolding record_failure
  failure_opens b t s h = ground arith

  failure_while_open : (b : CircuitBreaker) (t : ℕ) → b.state ≡ open_ → record_failure c t b ≡ b
  unfolding record_failure
  failure_while_open b t s = ground arith

  failures_while_open :
      (b : CircuitBreaker) (times : List ℕ) → b.state ≡ open_ → run c b (failures times) ≡ b
  unfolding run failures
  failures_while_open b [] s = refl
  failures_while_open b (t ∷ times) s =
      ap (λ x. run c x (failures times)) (failure_while_open b t s) ∙ failures_while_open b times s

  failures_from :
      (b : CircuitBreaker) (times : List ℕ)
      → b.state ≡ closed
      → b.consecutive_failures < c.failure_threshold
      → (run c b (failures times)).state ≡ (
          if ltb (b.consecutive_failures + length times) c.failure_threshold then closed else open_)
  unfolding run failures
  failures_from b [] s h = ground arith
  failures_from b (t ∷ times) s h = elim (dec_lt (b.consecutive_failures + 1) c.failure_threshold) [
    | yes p ↦
        let (closed_after, counted) = failure_counts b t s p in
        ground
          (arith, failures_from (record_failure c t b) times closed_after (omega (arith, counted)))
    | no p ↦ ground (
      arith,
      failures_while_open (record_failure c t b) times (failure_opens b t s (omega arith)),
      failure_opens b t s (omega arith),
    )
  ]

  rejects :
      (b : CircuitBreaker) (opened t : ℕ)
      → b.state ≡ open_
      → b.opened_at ≡ some opened
      → t < opened + c.recovery_timeout
      → before_call c t b ≡ (b, some breaker_open)
  unfolding before_call
  rejects b opened t s o h = ground arith

  starts_probe :
      (b : CircuitBreaker) (opened t : ℕ)
      → b.state ≡ open_
      → b.opened_at ≡ some opened
      → opened + c.recovery_timeout ≤ t
      → before_call c t b ≡ (
        record b { state = half_open; half_open_successes = 0; half_open_probe_in_flight = true },
        none,
      )
  unfolding before_call
  starts_probe b opened t s o h = ground arith

  probe_blocks :
      (b : CircuitBreaker) (t : ℕ)
      → b.state ≡ half_open
      → b.half_open_probe_in_flight ≡ true
      → before_call c t b ≡ (b, some breaker_half_open)
  unfolding before_call
  probe_blocks b t s p = ground arith

  pub probe_blocks_all :
      (b : CircuitBreaker) (times : List ℕ)
      → b.state ≡ half_open
      → b.half_open_probe_in_flight ≡ true
      → answers c b times ≡ map (λ _. some breaker_half_open) times
  unfolding answers
  probe_blocks_all b [] s p = refl
  probe_blocks_all b (t ∷ times) s p =
      rw (probe_blocks b t s p) (ap (◌∷◌ (some breaker_half_open)) (probe_blocks_all b times s p))

  round_half_open :
      (b : CircuitBreaker) (t : ℕ)
      → b.state ≡ half_open
      → b.half_open_probe_in_flight ≡ false
      → record_success c (before_call c t b).0 ≡ record_success c b
  unfolding before_call record_success
  round_half_open b t s p = ground arith

  round_closed :
      (b : CircuitBreaker) (t : ℕ)
      → b.state ≡ closed
      → (record_success c (before_call c t b).0).state ≡ closed
  unfolding before_call record_success
  round_closed b t s = ground arith

  rounds_closed :
      (b : CircuitBreaker) (times : List ℕ)
      → b.state ≡ closed
      → (run c b (rounds times)).state ≡ closed
  unfolding run rounds
  rounds_closed b [] s = s
  rounds_closed b (t ∷ times) s =
      rounds_closed (record_success c (before_call c t b).0) times (round_closed b t s)

  success_counts :
      (b : CircuitBreaker)
      → b.state ≡ half_open
      → b.half_open_successes + 1 < c.half_open_success_threshold
      → ((record_success c b).state ≡ half_open)
        × ((record_success c b).half_open_probe_in_flight ≡ false)
        × ((record_success c b).half_open_successes ≡ b.half_open_successes + 1)
  unfolding record_success
  success_counts b s h = ground arith

  success_closes :
      (b : CircuitBreaker)
      → b.state ≡ half_open
      → c.half_open_success_threshold ≤ b.half_open_successes + 1
      → (record_success c b).state ≡ closed
  unfolding record_success
  success_closes b s h = ground arith

  rounds_half_open :
      (b : CircuitBreaker) (times : List ℕ)
      → b.state ≡ half_open
      → b.half_open_probe_in_flight ≡ false
      → b.half_open_successes < c.half_open_success_threshold
      → (run c b (rounds times)).state ≡ (
          if ltb (b.half_open_successes + length times) c.half_open_success_threshold
          then half_open
          else closed)
  unfolding run rounds
  rounds_half_open b [] s p h = ground arith
  rounds_half_open b (t ∷ times) s p h =
      ap (λ x. (run c x (rounds times)).state) (round_half_open b t s p)
      ∙ elim (dec_lt (b.half_open_successes + 1) c.half_open_success_threshold) [
        | yes q ↦
            let (half, free, counted) = success_counts b s q in
            ground (
              arith,
              rounds_half_open (record_success c b) times half free (omega (arith, counted)),
            )
        | no q ↦
            let done = success_closes b s (omega arith) in
            ground (arith, rounds_closed (record_success c b) times done)
      ]

abbrev reset_half_open : CircuitBreaker → CircuitBreaker
reset_half_open b = record b {
  state = half_open;
  half_open_successes = 0;
  half_open_probe_in_flight = false;
}

as_half_open :
    (c : CircuitBreakerConfig) (b : CircuitBreaker) (opened t : ℕ)
    → b.state ≡ open_
    → b.opened_at ≡ some opened
    → opened + c.recovery_timeout ≤ t
    → before_call c t b ≡ before_call c t (reset_half_open b)
unfolding before_call
as_half_open c b opened t s o late = ground arith

-- A new breaker that only fails is open after the configured number of failures in a row and
-- after any more, and is closed before that.
pub opens_at_threshold :
    (c : CircuitBreakerConfig) (times : List ℕ)
    → config_accepted c ≡ true
    → (run c new (failures times)).state
      ≡ (if ltb (length times) c.failure_threshold then closed else open_)
unfolding new
opens_at_threshold c times accepted = ground (arith, failures_from c new times refl (ground arith))

-- While an open breaker is younger than the recovery timeout, every call is refused as open, and
-- the breaker stays as it is.
pub open_rejects_calls :
    (c : CircuitBreakerConfig) (b : CircuitBreaker) (opened : ℕ) (times : List ℕ)
    → b.state ≡ open_
    → b.opened_at ≡ some opened
    → All (λ t. t < opened + c.recovery_timeout) times
    → (answers c b times ≡ map (λ _. some breaker_open) times) × (run c b (map before times) ≡ b)
unfolding answers run
open_rejects_calls c b opened [] s o early = (refl, refl)
open_rejects_calls c b opened (t ∷ times) s o early =
    let e = rejects c b opened t s o early.0 in
    let (same, stays) = open_rejects_calls c b opened times s o early.1 in
    (
      rw e (ap (◌∷◌ (some breaker_open)) same),
      ap (λ x. run c x (map before times)) (ap (λ (r : CircuitBreaker × Option Refusal). r.0) e)
          ∙ stays,
    )

-- Once the recovery timeout has passed, an open breaker admits exactly one call: of any calls that
-- come before an outcome is recorded, the first is admitted and all others are refused.
pub one_probe :
    (c : CircuitBreakerConfig) (b : CircuitBreaker) (opened t : ℕ) (times : List ℕ)
    → b.state ≡ open_
    → b.opened_at ≡ some opened
    → opened + c.recovery_timeout ≤ t
    → answers c b (t ∷ times) ≡ none ∷ map (λ _. some breaker_half_open) times
unfolding answers
one_probe c b opened t times s o late =
    rw (starts_probe c b opened t s o late) (ap (◌∷◌ none) (probe_blocks_all c _ times refl refl))

-- An open breaker whose timeout has passed, and whose probes then succeed one after another, is
-- half-open until the configured number of successes and closed from then on.
pub recovers :
    (c : CircuitBreakerConfig) (b : CircuitBreaker) (opened t : ℕ) (times : List ℕ)
    → config_accepted c ≡ true
    → b.state ≡ open_
    → b.opened_at ≡ some opened
    → opened + c.recovery_timeout ≤ t
    → (run c b (rounds (t ∷ times))).state
      ≡ (if ltb (length (t ∷ times)) c.half_open_success_threshold then half_open else closed)
unfolding run rounds
recovers c b opened t times accepted s o late =
    ap (λ x. (run c (record_success c x) (rounds times)).state)
      (ap (λ (r : CircuitBreaker × Option Refusal). r.0) (as_half_open c b opened t s o late))
    ∙ (rw zero-add at (rounds_half_open c (reset_half_open b) (t ∷ times) refl refl (ground arith)))
