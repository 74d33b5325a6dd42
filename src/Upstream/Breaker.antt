-- ===== src/Upstream/Breaker.antt =====
-- src/vyuu_gateway/upstream/circuit_breaker.py: one breaker, and the registry that owns them.
-- The monotonic clock is a number of ticks, read once by each call that reads it.
pub mod Invariant
pub mod Recovery
pub mod Registry
use vyuu_mcp_gateway.Prelude.{
  ℕ, ◌+◌, ◌≡◌, ◌↔◌, Bool, true, false, ◌&&◌, Option, none, some, Eq, arith, ltb, leb, ◌==◌, is_some,
  if◌then◌else◌,
}
use vyuu_mcp_gateway.Dict
use vyuu_mcp_gateway.Upstream.Transport.{McpTransport, same_transport, same_transport_iff}
use vyuu_mcp_gateway.Dict.{Dict}

pub data CircuitBreakerState : Type 0 where
  closed open_ half_open : CircuitBreakerState

pub record CircuitBreakerConfig : Type 0 where
  pub failure_threshold : ℕ
  pub recovery_timeout : ℕ
  pub half_open_success_threshold : ℕ

-- `__post_init__` refuses a configuration exactly where this fails.
abbrev pub config_accepted : CircuitBreakerConfig → Bool
config_accepted c =
    if ltb c.failure_threshold 1
    then false
    else if leb c.recovery_timeout 0
    then false
    else if ltb c.half_open_success_threshold 1
    then false
    else true

pub record CircuitBreaker : Type 0 where
  pub state : CircuitBreakerState
  pub consecutive_failures : ℕ
  pub half_open_successes : ℕ
  pub half_open_probe_in_flight : Bool
  pub opened_at : Option ℕ

unfoldable pub new : CircuitBreaker
new = record {
  state = closed;
  consecutive_failures = 0;
  half_open_successes = 0;
  half_open_probe_in_flight = false;
  opened_at = none;
}

-- What `before_call` may raise; `assertion_failed` is the `assert` on `_opened_at`.
pub data Refusal : Type 0 where
  breaker_open breaker_half_open assertion_failed : Refusal

_open : ℕ → CircuitBreaker → CircuitBreaker
_open now b = record b {
  state = open_;
  opened_at = some now;
  half_open_successes = 0;
  half_open_probe_in_flight = false;
}

_close : CircuitBreaker → CircuitBreaker
_close b = record b {
  state = closed;
  consecutive_failures = 0;
  half_open_successes = 0;
  half_open_probe_in_flight = false;
  opened_at = none;
}

-- The last `if` of `before_call`: one probe at a time.
admit_probe : CircuitBreaker → CircuitBreaker × Option Refusal
admit_probe b =
    if b.half_open_probe_in_flight
    then (b, some breaker_half_open)
    else (record b { half_open_probe_in_flight = true }, none)

module _ (c : CircuitBreakerConfig) where
  -- The OPEN branch of `before_call`, with the time at which the breaker opened.
  leave_open : ℕ → CircuitBreaker → Option ℕ → CircuitBreaker × Option Refusal
  leave_open now b none = (b, some assertion_failed)
  leave_open now b (some opened) =
      if ltb now (opened + c.recovery_timeout)
      then (b, some breaker_open)
      else admit_probe (record b {
        state = half_open;
        half_open_successes = 0;
        half_open_probe_in_flight = false;
      })

  before_call_in : CircuitBreakerState → ℕ → CircuitBreaker → CircuitBreaker × Option Refusal
  before_call_in closed now b = (b, none)
  before_call_in open_ now b = leave_open now b b.opened_at
  before_call_in half_open now b = admit_probe b

  unfoldable pub before_call : ℕ → CircuitBreaker → CircuitBreaker × Option Refusal
  unfolding before_call_in leave_open admit_probe
  before_call now b = before_call_in b.state now b

  probe_succeeded : CircuitBreaker → CircuitBreaker
  probe_succeeded b =
      if leb c.half_open_success_threshold b.half_open_successes then _close b else b

  record_success_in : CircuitBreakerState → CircuitBreaker → CircuitBreaker
  record_success_in half_open b = probe_succeeded (record b {
    half_open_probe_in_flight = false;
    half_open_successes = b.half_open_successes + 1;
  })
  record_success_in closed b = record b { consecutive_failures = 0 }
  record_success_in open_ b = b

  unfoldable pub record_success : CircuitBreaker → CircuitBreaker
  unfolding record_success_in probe_succeeded _close
  record_success b = record_success_in b.state b

  failed_while_closed : ℕ → CircuitBreaker → CircuitBreaker
  failed_while_closed now b =
      if leb c.failure_threshold b.consecutive_failures then _open now b else b

  record_failure_in : CircuitBreakerState → ℕ → CircuitBreaker → CircuitBreaker
  record_failure_in half_open now b = _open now b
  record_failure_in closed now b =
      failed_while_closed now (record b { consecutive_failures = b.consecutive_failures + 1 })
  record_failure_in open_ now b = b

  unfoldable pub record_failure : ℕ → CircuitBreaker → CircuitBreaker
  unfolding record_failure_in failed_while_closed _open
  record_failure now b = record_failure_in b.state now b

-- `CircuitBreakerKey`: the tenant, the server and the transport.
pub record CircuitBreakerKey : Type 0 where
  pub tenant_id : ℕ
  pub server_id : ℕ
  pub transport : McpTransport

pub CircuitBreakerKey-beq_iff :
    (a b : CircuitBreakerKey)
    → ((a.tenant_id == b.tenant_id
          && a.server_id == b.server_id
          && same_transport a.transport b.transport)
        ≡ true)
      ↔ (a ≡ b)
CircuitBreakerKey-beq_iff a b = ground (arith, same_transport_iff a.transport b.transport)

instance abbrev pub breaker_key_eq : Eq CircuitBreakerKey
breaker_key_eq = record {
  beq = λ a b.
      a.tenant_id == b.tenant_id
      && a.server_id == b.server_id
      && same_transport a.transport b.transport;
  beq_iff = CircuitBreakerKey-beq_iff;
}

-- `UpstreamCircuitBreakerRegistry._breakers`
abbrev pub Breakers : Type 0
Breakers = Dict CircuitBreakerKey CircuitBreaker

or_new : Option CircuitBreaker → CircuitBreaker
unfolding new
or_new none = new
or_new (some b) = b

-- `breaker_for`: the breaker, and the registry that holds it from then on.
unfoldable pub breaker_for : CircuitBreakerKey → Breakers → CircuitBreaker × Breakers
unfolding or_new
breaker_for k bs =
    let b = or_new (Dict.get bs k) in (b, if is_some (Dict.get bs k) then bs else Dict.put bs k b)

-- A call through the registry changes the breaker object that it returned.
unfoldable pub on_breaker :
    {A : Type 0}
    → CircuitBreakerKey
    → (CircuitBreaker → CircuitBreaker × A)
    → Breakers
    → Breakers × A
on_breaker k f bs = let (b, held) = breaker_for k bs in let (b', a) = f b in (Dict.put held k b', a)

-- `CircuitBreakerSnapshot`, but for the key that the caller has.
pub record CircuitBreakerSnapshot : Type 0 where
  pub state : CircuitBreakerState
  pub consecutive_failures : ℕ
  pub opened_at_monotonic : Option ℕ

abbrev pub snapshot : CircuitBreaker → CircuitBreakerSnapshot
snapshot b = record {
  state = b.state;
  consecutive_failures = b.consecutive_failures;
  opened_at_monotonic = b.opened_at;
}
