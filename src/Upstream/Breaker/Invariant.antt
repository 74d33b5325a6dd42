-- ===== src/Upstream/Breaker/Invariant.antt =====
-- What holds of a breaker between two calls, whatever their order.
use vyuu_mcp_gateway.Prelude.{ℕ, ◌<◌, ◌≡◌, ◌≢◌, true, none, some, List, [], ◌∷◌, arith, is_some}
use vyuu_mcp_gateway.Upstream.Breaker.{
  closed, half_open, CircuitBreakerConfig, config_accepted, CircuitBreaker, new, assertion_failed,
  before_call, record_success, record_failure,
}

-- The calls that the gateway makes on one breaker, each with the clock's reading.
pub data Call : Type 0 where
  before : ℕ → Call
  success : Call
  failure : ℕ → Call

abbrev pub step : CircuitBreakerConfig → CircuitBreaker → Call → CircuitBreaker
step c b (before now) = (before_call c now b).0
step c b success = record_success c b
step c b (failure now) = record_failure c now b

unfoldable pub run : CircuitBreakerConfig → CircuitBreaker → List Call → CircuitBreaker
run c b [] = b
run c b (call ∷ calls) = run c (step c b call) calls

pub record IsValid (c : CircuitBreakerConfig) (b : CircuitBreaker) : Type 0 where
  pub below_threshold : b.state ≡ closed → b.consecutive_failures < c.failure_threshold
  pub closed_has_no_time : b.state ≡ closed → b.opened_at ≡ none
  pub opened_has_time : b.state ≢ closed → is_some b.opened_at ≡ true
  pub probe_is_half_open : b.half_open_probe_in_flight ≡ true → b.state ≡ half_open
  pub successes_missing : b.half_open_successes < c.half_open_success_threshold

module _ (c : CircuitBreakerConfig) (accepted : config_accepted c ≡ true) where
  pub new-IsValid : IsValid c new
  unfolding new
  new-IsValid = ground arith

  before_call-IsValid :
      (now : ℕ) (b : CircuitBreaker) → IsValid c b → IsValid c (before_call c now b).0
  unfolding before_call
  before_call-IsValid now b v = ground arith

  record_success-IsValid : (b : CircuitBreaker) → IsValid c b → IsValid c (record_success c b)
  unfolding record_success
  record_success-IsValid b v = ground arith

  record_failure-IsValid :
      (now : ℕ) (b : CircuitBreaker) → IsValid c b → IsValid c (record_failure c now b)
  unfolding record_failure
  record_failure-IsValid now b v = ground arith

  step-IsValid : (b : CircuitBreaker) (call : Call) → IsValid c b → IsValid c (step c b call)
  step-IsValid b (before now) v = before_call-IsValid now b v
  step-IsValid b success v = record_success-IsValid b v
  step-IsValid b (failure now) v = record_failure-IsValid now b v

  run_from-IsValid :
      (b : CircuitBreaker) (calls : List Call) → IsValid c b → IsValid c (run c b calls)
  unfolding run
  run_from-IsValid b [] v = v
  run_from-IsValid b (call ∷ calls) v =
      run_from-IsValid (step c b call) calls (step-IsValid b call v)

-- Under an accepted configuration, after any calls on a new breaker: closed means fewer failures
-- in a row than the threshold and no opening time, any other state has an opening time, a probe is
-- in flight only in the half-open state, and the successes counted are below the threshold.
pub run-IsValid :
    (c : CircuitBreakerConfig) (calls : List Call)
    → config_accepted c ≡ true
    → IsValid c (run c new calls)
run-IsValid c calls accepted = run_from-IsValid c accepted new calls (new-IsValid c accepted)

never_asserts_from :
    (c : CircuitBreakerConfig) (now : ℕ) (b : CircuitBreaker)
    → IsValid c b
    → (before_call c now b).1 ≢ some assertion_failed
unfolding before_call
never_asserts_from c now b v = ground arith

-- The assertion in `before_call` cannot fail: under an accepted configuration, no sequence of calls
-- on a new breaker leads to a call that raises it.
pub before_call_never_asserts :
    (c : CircuitBreakerConfig) (calls : List Call) (now : ℕ)
    → config_accepted c ≡ true
    → (before_call c now (run c new calls)).1 ≢ some assertion_failed
before_call_never_asserts c calls now accepted =
    never_asserts_from c now (run c new calls) (run-IsValid c calls accepted)
