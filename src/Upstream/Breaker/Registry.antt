-- ===== src/Upstream/Breaker/Registry.antt =====
-- The breakers of several keys.
use vyuu_mcp_gateway.Prelude.{◌≡◌, arith, if◌then◌else◌}
use vyuu_mcp_gateway.Dict.{get-put}
use vyuu_mcp_gateway.Upstream.Breaker.{
  CircuitBreaker, CircuitBreakerKey, breaker_key_eq, Breakers, new, breaker_for, on_breaker,
}

pub breaker_for-other :
    (k j : CircuitBreakerKey) (bs : Breakers)
    → (breaker_for j (breaker_for k bs).1).0 ≡ (breaker_for j bs).0
unfolding breaker_for
breaker_for-other k j bs = ground (arith, get-put bs k j new, breaker_key_eq.beq_iff k j)

-- What a call on the breaker of key `k` does is seen by every later `breaker_for` of `k`, and by
-- those of no other key.
pub breaker_for-on_breaker :
    {A : Type 0} (k j : CircuitBreakerKey) (f : CircuitBreaker → CircuitBreaker × A) (bs : Breakers)
    → (breaker_for j (on_breaker k f bs).0).0
      ≡ (if breaker_key_eq.beq k j then (f (breaker_for k bs).0).0 else (breaker_for j bs).0)
unfolding breaker_for on_breaker
breaker_for-on_breaker k j f bs =
    let (b, held) = breaker_for k bs in
    ground (arith, get-put held k j (f b).0, get-put bs k j b, breaker_key_eq.beq_iff k j)
