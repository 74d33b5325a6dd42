-- ===== src/Upstream/Pool/Keys.antt =====
-- src/vyuu_gateway/upstream/pool.py: `_states`, one slot for each key, and `close_all`.
use vyuu_mcp_gateway.Prelude.{
  ℕ, ◌≡◌, ◌↔◌, inl, inr, Bool, true, ◌&&◌, none, some, List, [], ◌∷◌, ◌++◌, Memᴰ, Eq, arith, ◌==◌,
  if◌then◌else◌, Bool-cases, Option-cases,
}
use vyuu_mcp_gateway.Dict
use vyuu_mcp_gateway.Dict.{Dict, get-put, get-pop, get-keys, beq_refl}
use vyuu_mcp_gateway.Upstream.Transport.{McpTransport, same_transport, same_transport_iff}
use vyuu_mcp_gateway.Upstream.Pool.{
  Client, _PoolState, Slot, PoolConfig, Decision, _state_for, decide, release, close_key,
}

pub record UpstreamPoolKey : Type 0 where
  pub tenant_id : ℕ
  pub server_id : ℕ
  pub transport : McpTransport

pub UpstreamPoolKey-beq_iff :
    (a b : UpstreamPoolKey)
    → ((a.tenant_id == b.tenant_id
          && a.server_id == b.server_id
          && same_transport a.transport b.transport)
        ≡ true)
      ↔ (a ≡ b)
UpstreamPoolKey-beq_iff a b = ground (arith, same_transport_iff a.transport b.transport)

instance abbrev pub pool_key_eq : Eq UpstreamPoolKey
pool_key_eq = record {
  beq = λ a b.
      a.tenant_id == b.tenant_id
      && a.server_id == b.server_id
      && same_transport a.transport b.transport;
  beq_iff = UpstreamPoolKey-beq_iff;
}

-- `UpstreamClientPool._states`
abbrev pub States : Type 0
States = Dict UpstreamPoolKey _PoolState

abbrev set_slot : States → UpstreamPoolKey → Slot → States
set_slot states key none = Dict.pop states key
set_slot states key (some s) = Dict.put states key s

-- `_acquire` and its handler, `release` and `close_key`, on the slot of their key.
abbrev pub _acquire : PoolConfig → ℕ → UpstreamPoolKey → States → States × Decision × List Client
_acquire c now key states =
    let (s, decision, expired) = decide c now (_state_for (Dict.get states key)) in
    (set_slot states key (some s), decision, expired)

abbrev pub release_client : UpstreamPoolKey → Client → ℕ → Bool → States → States × Bool
release_client key client now discard states =
    let (slot, closes) = release (Dict.get states key) client now discard in
    (set_slot states key slot, closes)

unfoldable pub close_one : UpstreamPoolKey → States → States × List Client
close_one key states =
    let (slot, clients) = close_key (Dict.get states key) in (set_slot states key slot, clients)

-- The loop of `close_all`, over the keys that were there when it began.
unfoldable pub close_keys : List UpstreamPoolKey → States → States × List Client
close_keys [] states = (states, [])
close_keys (key ∷ keys) states =
    let (s1, c1) = close_one key states in let (s2, c2) = close_keys keys s1 in (s2, c1 ++ c2)

unfoldable pub close_all : States → States × List Client
close_all states = close_keys (Dict.keys states) states

-- No call can lease from this slot, and no client is idle in it.
abbrev pub IsClosed : Slot → Type 0
IsClosed none = Unit
IsClosed (some s) = (s.closing ≡ true) × (s.idle ≡ [])

get-set_slot :
    (states : States) (key other : UpstreamPoolKey) (slot : Slot)
    → Dict.get (set_slot states key slot) other
      ≡ (if pool_key_eq.beq key other then slot else Dict.get states other)
get-set_slot states key other none = get-pop states key other
get-set_slot states key other (some s) = get-put states key other s

close_key-IsClosed : (slot : Slot) → IsClosed (close_key slot).0
unfolding close_key
close_key-IsClosed none = tt
close_key-IsClosed (some s) = ground arith

get-close_one :
    (states : States) (key other : UpstreamPoolKey)
    → Dict.get (close_one key states).0 other ≡ (
        if pool_key_eq.beq key other
        then (close_key (Dict.get states key)).0
        else Dict.get states other)
unfolding close_one
get-close_one states key other = get-set_slot states key other (close_key (Dict.get states key)).0

close_one-IsClosed :
    (states : States) (key : UpstreamPoolKey) → IsClosed (Dict.get (close_one key states).0 key)
close_one-IsClosed states key =
    rw (get-close_one states key key, beq_refl key) (close_key-IsClosed (Dict.get states key))

stays_IsClosed :
    (states : States) (key other : UpstreamPoolKey)
    → IsClosed (Dict.get states other)
    → IsClosed (Dict.get (close_one key states).0 other)
stays_IsClosed states key other h = elim (Bool-cases (pool_key_eq.beq key other)) [
  | inl e ↦ rw⁻¹ ((pool_key_eq.beq_iff key other).0 e) (close_one-IsClosed states key)
  | inr e ↦ rw (get-close_one states key other, e) h
]

rest_IsClosed :
    (keys : List UpstreamPoolKey) (states : States) (key : UpstreamPoolKey)
    → IsClosed (Dict.get states key)
    → IsClosed (Dict.get (close_keys keys states).0 key)
unfolding close_keys
rest_IsClosed [] states key h = h
rest_IsClosed (k ∷ keys) states key h =
    rest_IsClosed keys (close_one k states).0 key (stays_IsClosed states k key h)

close_keys-IsClosed :
    (keys : List UpstreamPoolKey) (states : States) (key : UpstreamPoolKey)
    → Memᴰ key keys
    → IsClosed (Dict.get (close_keys keys states).0 key)
unfolding close_keys
close_keys-IsClosed [] states key m = elim m [ ]
close_keys-IsClosed (k ∷ keys) states key (Memᴰ.head e) =
    rest_IsClosed keys (close_one k states).0 key (rw e (close_one-IsClosed states k))
close_keys-IsClosed (k ∷ keys) states key (Memᴰ.tail m) =
    close_keys-IsClosed keys (close_one k states).0 key m

-- After `close_all`, every key has either no state or one that is closing and has no idle client.
pub close_all-IsClosed :
    (states : States) (key : UpstreamPoolKey) → IsClosed (Dict.get (close_all states).0 key)
unfolding close_all
close_all-IsClosed states key = elim (Option-cases (Dict.get states key)) [
  | inl e ↦ rest_IsClosed (Dict.keys states) states key (rw e tt)
  | inr (s, e) ↦ close_keys-IsClosed (Dict.keys states) states key (get-keys states key e)
]
