-- ===== src/Upstream/Pool/Call.antt =====
-- src/vyuu_gateway/upstream/pool.py: `PooledOutboundMcpClient._with_client`, by what it does to the
-- breaker of its key, for calls that overlap.
use vyuu_mcp_gateway.Prelude.{
  ℕ, zero, suc, ◌+◌, ◌≡◌, ◌≢◌, refl, true, false, Option, none, some, List, [], ◌∷◌, arith,
}
use vyuu_mcp_gateway.Upstream.Breaker.{
  half_open, CircuitBreakerConfig, CircuitBreaker, Refusal, before_call, record_success,
  record_failure,
}

-- How the body, with the acquire around it, ends: with a result, with an `Exception`, or with a
-- `CancelledError`, which is not an `Exception`.
pub data Ending : Type 0 where
  returned raised cancelled : Ending

-- What one call does at one of its turns: it begins, or its body is over.
pub data Event : Type 0 where
  begun : ℕ → Event
  over : ℕ → Ending → Event

-- What its caller then knows.
pub data Answer : Type 0 where
  refused : Refusal → Answer
  ended : Ending → Answer

-- The breaker, and the number of calls that it has admitted and whose bodies are not over.
pub record Calls : Type 0 where
  pub breaker : CircuitBreaker
  pub in_flight : ℕ

abbrev record_ending : CircuitBreakerConfig → ℕ → Ending → CircuitBreaker → CircuitBreaker
record_ending c now returned b = record_success c b
record_ending c now raised b = record_failure c now b
record_ending c now cancelled b = b

abbrev after_before : Calls → CircuitBreaker × Option Refusal → Calls × Option Answer
after_before s (b, none) = (record { breaker = b; in_flight = 1 + s.in_flight }, none)
after_before s (b, some refusal) =
    (record { breaker = b; in_flight = s.in_flight }, some (refused refusal))

-- The outcome of a call does not depend on which of those in flight it is. A call that is not in flight
-- does not end.
abbrev after_body : CircuitBreakerConfig → ℕ → Ending → CircuitBreaker → ℕ → Calls × Option Answer
after_body c now ending b zero = (record { breaker = b; in_flight = zero }, none)
after_body c now ending b (suc n) =
    (record { breaker = record_ending c now ending b; in_flight = n }, some (ended ending))

-- One turn of a call of a client that has breakers; any number of calls overlap.
unfoldable pub _with_client : CircuitBreakerConfig → Event → Calls → Calls × Option Answer
_with_client c (begun now) s = after_before s (before_call c now s.breaker)
_with_client c (over now ending) s = after_body c now ending s.breaker s.in_flight

-- The turns of all calls, in their order.
unfoldable pub calls_after : CircuitBreakerConfig → List Event → Calls → Calls
calls_after c [] s = s
calls_after c (e ∷ events) s = calls_after c events (_with_client c e s).0

-- A probe is in flight in the half-open state.
abbrev Held : CircuitBreaker → Type 0
Held b = (b.state ≡ half_open) × (b.half_open_probe_in_flight ≡ true)

-- No body returns or raises.
abbrev pub IsQuiet : Event → Type 0
IsQuiet (begun now) = Unit
IsQuiet (over now returned) = ⊥
IsQuiet (over now raised) = ⊥
IsQuiet (over now cancelled) = Unit

-- The breaker while the first call after the recovery timeout probes the upstream.
abbrev probing : CircuitBreaker → CircuitBreaker
probing b = record b {
  state = half_open;
  half_open_successes = 0;
  half_open_probe_in_flight = true;
}

-- A body that returns or raises ends the probe, be it that of the probe or of a call admitted earlier.
outcome_ends_probe :
    (c : CircuitBreakerConfig) (s : Calls) (now n : ℕ) (ending : Ending)
    → Held s.breaker
    → s.in_flight ≡ suc n
    → ending ≢ cancelled
    → (_with_client c (over now ending) s).0.breaker.half_open_probe_in_flight ≡ false
unfolding _with_client record_success record_failure
outcome_ends_probe c s now n returned held busy not_cancelled = rw busy (ground arith)
outcome_ends_probe c s now n raised held busy not_cancelled = rw busy (ground arith)
outcome_ends_probe c s now n cancelled held busy not_cancelled = absurd (not_cancelled refl)
