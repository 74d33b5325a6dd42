-- ===== src/ApiKeys/Ttl/Expiry.antt =====
-- The expiry that a key gets.
use vyuu_mcp_gateway.Prelude.{ℕ, ◌+◌, ◌≤◌, ◌<◌, Option, none, some, ok, ◌≡◌, arith}
use vyuu_mcp_gateway.Tables.{seconds}
use vyuu_mcp_gateway.ApiKeys.Ttl.{ResolvedTtl, enforce_requested_expiry}

-- Under a ceiling of n seconds, an expiry that enforce_requested_expiry returns is given, not in the
-- past, and less than n + 1 seconds away.
pub enforce_bounds :
    (resolved : ResolvedTtl) (requested : Option ℕ) (moment n : ℕ) {out : Option ℕ}
    → resolved.max_ttl_seconds ≡ some n
    → enforce_requested_expiry resolved requested moment ≡ ok out
    → (t : ℕ) × (out ≡ some t) × (moment ≤ t) × (t < moment + seconds (n + 1))
unfolding enforce_requested_expiry
enforce_bounds resolved none moment n limit h =
    (moment + seconds n, ground (arith, limit, h), omega arith, omega arith)
enforce_bounds resolved (some t) moment n limit h =
    (t, ground (arith, limit, h), ground (arith, limit, h), ground (arith, limit, h))
