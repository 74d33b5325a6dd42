-- ===== src/Upstream/Pool.antt =====
-- src/vyuu_gateway/upstream/pool.py: `UpstreamClientPool`. What the code does while it holds the
-- condition's lock is one function; the clients to close are returned. A time is a number of ticks.
pub mod Lease
pub mod Keys
pub mod Call
use vyuu_mcp_gateway.Prelude.{
  ℕ, ◌+◌, ◌-◌, ◌≡◌, ◌↔◌, Bool, true, false, ◌&&◌, ◌||◌, Option, none, some, List, [], ◌∷◌, ◌++◌,
  map, length, Eq, arith, ltb, leb, ◌==◌, if◌then◌else◌,
}
use vyuu_mcp_gateway.Dict
use vyuu_mcp_gateway.Dict.{Dict}
use vyuu_mcp_gateway.Upstream.Transport.{McpTransport, same_transport, same_transport_iff}

-- An `OutboundMcpClient`: which object it is, whether it takes new attributes, and its
-- `_vyuu_pool_built_at`.
pub record Client : Type 0 where
  pub id : ℕ
  pub takes_attributes : Bool
  pub built_at : Option ℕ

pub record _PoolState : Type 0 where
  pub idle : List (Client × ℕ)
  pub total : ℕ
  pub closing : Bool

abbrev pub new_state : _PoolState
new_state = record { idle = []; total = 0; closing = false }

-- The constructor's arguments, without the clock.
pub record PoolConfig : Type 0 where
  pub max_clients_per_upstream : ℕ
  pub client_max_age_seconds : Option ℕ

abbrev is_zero_age : Option ℕ → Bool
is_zero_age none = false
is_zero_age (some age) = age == 0

-- `__init__` raises `ValueError` exactly where this fails.
abbrev pub config_accepted : PoolConfig → Bool
config_accepted c =
    if ltb c.max_clients_per_upstream 1
    then false
    else if is_zero_age c.client_max_age_seconds
    then false
    else true

-- The state in `_states`, unless it has been dropped.
abbrev pub Slot : Type 0
Slot = Option _PoolState

-- `_state_for`
abbrev pub _state_for : Slot → _PoolState
_state_for none = new_state
_state_for (some s) = s

-- `if state.closing and state.total == 0: self._states.pop(key, None)`
abbrev pub drop_if_closed : _PoolState → Slot
drop_if_closed s = if s.closing && s.total == 0 then none else some s

-- The loop of `_take_expired`: the stale clients, and the fresh entries. `created_at <= now - age`
-- is written without the subtraction.
unfoldable pub split_idle : ℕ → ℕ → List (Client × ℕ) → List Client × List (Client × ℕ)
split_idle age now [] = ([], [])
split_idle age now ((client, created_at) ∷ entries) =
    let (stale, fresh) = split_idle age now entries in
    if leb (created_at + age) now
    then (client ∷ stale, fresh)
    else (stale, (client, created_at) ∷ fresh)

unfoldable pub _take_expired : Option ℕ → ℕ → List (Client × ℕ) → List Client × List (Client × ℕ)
unfolding split_idle
_take_expired none now idle = ([], idle)
_take_expired (some age) now idle = split_idle age now idle

-- `idle.pop()`: the last entry, and those before it.
unfoldable pub pop_last : List (Client × ℕ) → Option (Client × List (Client × ℕ))
pop_last [] = none
pop_last (entry ∷ entries) = elim (pop_last entries) [
  | none ↦ some (entry.0, [])
  | some (client, before) ↦ some (client, entry ∷ before)
]

-- What one turn of the loop in `_acquire` decides under the lock: raise `UpstreamPoolClosedError`,
-- take an idle client, build one, or wait for a notification and try again.
pub data Decision : Type 0 where
  pool_closed wait build : Decision
  reuse : Client → Decision

abbrev take_or_build :
    PoolConfig → _PoolState → Option (Client × List (Client × ℕ)) → _PoolState × Decision
take_or_build c s (some (client, rest)) = (record s { idle = rest }, reuse client)
take_or_build c s none =
    if ltb s.total c.max_clients_per_upstream
    then (record s { total = s.total + 1 }, build)
    else (s, wait)

-- The `async with state.condition` block of `_acquire`: the state, the decision and the expired
-- clients, which the caller closes before it goes on.
unfoldable pub decide : PoolConfig → ℕ → _PoolState → _PoolState × Decision × List Client
unfolding _take_expired pop_last
decide c now s =
    let (expired, fresh) = _take_expired c.client_max_age_seconds now s.idle in
    let (s', decision) =
      take_or_build c (record s { idle = fresh; total = s.total - length expired })
        (pop_last fresh) in
    if s.closing then (s, pool_closed, []) else (s', decision, expired)

-- The handler of `_acquire` for a factory that raises or is cancelled.
unfoldable pub build_failed : _PoolState → Slot
build_failed s = drop_if_closed (record s { total = s.total - 1 })

-- `getattr(client, _BUILT_AT_ATTR, None)`, or the clock's reading.
abbrev pub created_at : Client → ℕ → ℕ
created_at client now = elim client.built_at [ none ↦ now | some t ↦ t ]

-- The client after the attempt to set the attribute.
abbrev pub stamped : Client → ℕ → Client
stamped client now =
    if client.takes_attributes
    then record client { built_at = some (created_at client now) }
    else client

abbrev give_back : _PoolState → Client → ℕ → Bool → Slot × Bool
give_back s client now discard =
    if discard || s.closing then (drop_if_closed (record s { total = s.total - 1 }), true) else (
      some (record s { idle = s.idle ++ ((stamped client now, created_at client now) ∷ []) }),
      false,
    )

-- `release`: the slot, and whether the client is closed.
unfoldable pub release : Slot → Client → ℕ → Bool → Slot × Bool
release none client now discard = (none, true)
release (some s) client now discard = give_back s client now discard

abbrev close_state : _PoolState → Slot × List Client
close_state s =
    let clients = map (λ entry. entry.0) s.idle in
    let s' : _PoolState = record s {
      closing = true;
      idle = [];
      total = s.total - length clients;
    } in
    (if s'.total == 0 then none else some s', clients)

-- `close_key`: the slot, and the clients to close.
unfoldable pub close_key : Slot → Slot × List Client
close_key none = (none, [])
close_key (some s) = close_state s
