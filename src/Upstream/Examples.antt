-- ===== src/Upstream/Examples.antt =====
-- Runs of breakers and of pools at concrete times.
use vyuu_mcp_gateway.Prelude.{
  ℕ, ◌+◌, ◌≤◌, ◌<◌, ◌≡◌, refl, Bool, true, false, none, some, List, [], ◌∷◌, length, Memᴰ, arith,
  ltb, if◌then◌else◌,
}
use vyuu_mcp_gateway.Upstream.Transport.{stdio, sse, streamable_http}
use vyuu_mcp_gateway.Upstream.Breaker.{
  CircuitBreakerConfig, CircuitBreaker, CircuitBreakerKey, breaker_key_eq, closed, open_, half_open,
  new, breaker_half_open, before_call, record_success, record_failure,
}
use vyuu_mcp_gateway.Upstream.Breaker.Invariant.{
  before, success, failure, run, IsValid, run-IsValid,
}
use vyuu_mcp_gateway.Upstream.Breaker.Recovery.{
  failures, rounds, answers, opens_at_threshold, one_probe, recovers,
}
use vyuu_mcp_gateway.Upstream.Pool.{Client, PoolConfig, _PoolState, decide, reuse}
use vyuu_mcp_gateway.Upstream.Pool.Lease.{Event, acquire, built, failed, end_lease, close, nobody}
use vyuu_mcp_gateway.Upstream.Pool.Lease as Lease
use vyuu_mcp_gateway.Upstream.Pool.Lease.Limits.{
  idle_count, wear_out, never_over_capacity, pool_runs_dry,
}
use vyuu_mcp_gateway.Upstream.Pool.Lease.Exclusive.{places, never_shared}
use vyuu_mcp_gateway.Upstream.Pool.Lease.Fresh.{reuse_is_fresh}
use vyuu_mcp_gateway.Upstream.Pool.Keys.{UpstreamPoolKey, pool_key_eq}
use vyuu_mcp_gateway.Upstream.Pool.Call.{
  returned, cancelled, begun, over, Calls, _with_client, calls_after,
}

abbrev config : CircuitBreakerConfig
config = record { failure_threshold = 3; recovery_timeout = 30; half_open_success_threshold = 2 }

abbrev opened : CircuitBreaker
opened = record {
  state = open_;
  consecutive_failures = 3;
  half_open_successes = 0;
  half_open_probe_in_flight = false;
  opened_at = some 7;
}

opens_at_threshold_example :
    (run config new (failures (1 ∷ 2 ∷ 7 ∷ []))).state
    ≡ (if ltb 3 config.failure_threshold then closed else open_)
opens_at_threshold_example = opens_at_threshold config (1 ∷ 2 ∷ 7 ∷ []) refl

one_probe_example : answers config opened (37 ∷ 38 ∷ []) ≡ none ∷ some breaker_half_open ∷ []
one_probe_example = one_probe config opened 7 37 (38 ∷ []) refl refl (omega arith)

recovers_example :
    (run config opened (rounds (37 ∷ 40 ∷ []))).state
    ≡ (if ltb 2 config.half_open_success_threshold then half_open else closed)
recovers_example = recovers config opened 7 37 (40 ∷ []) refl refl refl (omega arith)

run-IsValid_example :
    IsValid config (run config new (failure 1 ∷ failure 2 ∷ failure 7 ∷ before 40 ∷ success ∷ []))
run-IsValid_example =
    run-IsValid config (failure 1 ∷ failure 2 ∷ failure 7 ∷ before 40 ∷ success ∷ []) refl

abbrev over_stdio : CircuitBreakerKey
over_stdio = record { tenant_id = 1; server_id = 12; transport = stdio }

abbrev over_sse : CircuitBreakerKey
over_sse = record { tenant_id = 1; server_id = 12; transport = sse }

abbrev fails : CircuitBreaker → CircuitBreaker × Bool
fails b = (record_failure config 5 b, true)

abbrev pool_config : PoolConfig
pool_config = record { max_clients_per_upstream = 2; client_max_age_seconds = some 60 }

abbrev client : ℕ → Client
client i = record { id = i; takes_attributes = true; built_at = none }

abbrev use_two : List Event
use_two =
    acquire 1 false
    ∷ built (client 4)
    ∷ acquire 2 false
    ∷ built (client 5)
    ∷ acquire 3 false
    ∷ end_lease 4 9 false
    ∷ acquire 10 false
    ∷ end_lease 5 11 true
    ∷ []

never_over_capacity_example :
    idle_count (Lease.run pool_config nobody use_two).slot
      + length (Lease.run pool_config nobody use_two).leased
      + (Lease.run pool_config nobody use_two).building
      + (Lease.run pool_config nobody use_two).lost
    ≤ 2
never_over_capacity_example = never_over_capacity pool_config use_two

never_shared_example : places 4 (Lease.run pool_config nobody use_two) ≤ 1
never_shared_example = never_shared pool_config use_two 4 (omega arith)

pool_runs_dry_example :
    (length (Lease.run pool_config (Lease.run pool_config nobody (wear_out 60 2)) use_two).leased
      ≡ 0)
    × ((Lease.run pool_config (Lease.run pool_config nobody (wear_out 60 2)) use_two).building ≡ 0)
pool_runs_dry_example = pool_runs_dry pool_config 60 use_two refl

abbrev two_idle : _PoolState
two_idle = record { idle = (client 4, 10) ∷ (client 5, 90) ∷ []; total = 2; closing = false }

takes_young :
    decide pool_config 100 two_idle
    ≡ (record { idle = []; total = 1; closing = false }, reuse (client 5), client 4 ∷ [])
unfolding decide
takes_young = refl

reuse_is_fresh_example : (t : ℕ) × Memᴰ (client 5, t) two_idle.idle × (100 < t + 60)
reuse_is_fresh_example =
    reuse_is_fresh pool_config 60 100 two_idle (record { idle = []; total = 1; closing = false })
      (client 5) (client 4 ∷ []) refl takes_young

abbrev pool_key : UpstreamPoolKey
pool_key = record { tenant_id = 1; server_id = 12; transport = streamable_http }

-- The breaker is open since 7 and no call is in flight, or one from before.
abbrev quiet_server : Calls
quiet_server = record { breaker = opened; in_flight = 0 }

abbrev one_behind : Calls
one_behind = record { breaker = opened; in_flight = 1 }

-- A call from before that returns after the cancelled probe lets the next one through.
straggler_frees :
    (_with_client config
      (begun 101)
      (calls_after config (begun 40 ∷ over 41 cancelled ∷ over 60 returned ∷ []) one_behind)).1
    ≡ none
unfolding _with_client calls_after before_call record_success
straggler_frees = refl
