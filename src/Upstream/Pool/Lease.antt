-- ===== src/Upstream/Pool/Lease.antt =====
-- The clients of one key that callers hold, and the invariant that bounds them.
pub mod Capacity
pub mod Limits
pub mod Exclusive
pub mod Fresh
use vyuu_mcp_gateway.Prelude.{
  ℕ, ◌+◌, ◌-◌, ◌≡◌, Bool, true, false, ◌&&◌, ◌||◌, not, Option, none, some, List, [], ◌∷◌, length,
  any, keep, find, arith, ltb, leb, ◌==◌, if◌then◌else◌,
}
use vyuu_mcp_gateway.Upstream.Pool.{
  Client, _PoolState, PoolConfig, Slot, _state_for, Decision, pool_closed, wait, build, reuse,
  decide, build_failed, release, close_key,
}

-- The slot of one key, with the callers inside `acquire`: the clients they hold, the number of them
-- that run the factory, and the number of places that no caller has any more but that are counted.
pub record Leases : Type 0 where
  pub slot : Slot
  pub leased : List Client
  pub building : ℕ
  pub lost : ℕ

-- What callers do. `acquire` is one turn of the loop, with whether the task is cancelled while it closes
-- expired clients; `built` is the factory's return; a lease ends with `end_lease` of the client's id, and
-- `discard` says whether the body raised.
pub data Event : Type 0 where
  acquire : ℕ → Bool → Event
  built : Client → Event
  failed : Event
  end_lease : ℕ → ℕ → Bool → Event
  close : Event

abbrev is_nil : List Client → Bool
is_nil [] = true
is_nil (_ ∷ _) = false

-- What becomes of a decision. Only a caller with clients to close can be cancelled before it has
-- the client or is in the `try` around the factory.
abbrev pub follow : Leases → _PoolState → Decision → Bool → Leases
follow l s (reuse client) cut =
    if cut
    then record l { slot = some s; lost = l.lost + 1 }
    else record l { slot = some s; leased = client ∷ l.leased }
follow l s build cut =
    if cut
    then record l { slot = some s; lost = l.lost + 1 }
    else record l { slot = some s; building = l.building + 1 }
follow l s wait cut = record l { slot = some s }
follow l s pool_closed cut = record l { slot = some s }

unfoldable pub on_acquire : PoolConfig → ℕ → Bool → Leases → Leases
unfolding decide
on_acquire c now cancelled l =
    let (s, decision, expired) = decide c now (_state_for l.slot) in
    follow l s decision (cancelled && not (is_nil expired))

abbrev pub fail_in : Leases → Leases
fail_in l = elim l.slot [
  | none ↦ l
  | some s ↦ record l { slot = build_failed s; building = l.building - 1 }
]

-- The first client with this id, and the others.
unfoldable pub remove_id : ℕ → List Client → List Client
remove_id i [] = []
remove_id i (client ∷ clients) =
    let rest = remove_id i clients in if client.id == i then clients else client ∷ rest

abbrev pub end_found : Leases → ℕ → Bool → ℕ → Option Client → Leases
end_found l now discard i none = l
end_found l now discard i (some client) = record l {
  slot = (release l.slot client now discard).0;
  leased = remove_id i l.leased;
}

-- One event. A return of the factory is of a running one, and a lease that ends is a lease.
unfoldable pub step : PoolConfig → Leases → Event → Leases
unfolding on_acquire build_failed release remove_id close_key
step c l (acquire now cancelled) = on_acquire c now cancelled l
step c l (built client) =
    if l.building == 0
    then l
    else record l { building = l.building - 1; leased = client ∷ l.leased }
step c l failed = if l.building == 0 then l else fail_in l
step c l (end_lease i now discard) = end_found l now discard i (find (λ x. x.id == i) l.leased)
step c l close = record l { slot = (close_key l.slot).0 }

unfoldable pub run : PoolConfig → Leases → List Event → Leases
run c l [] = l
run c l (event ∷ events) = run c (step c l event) events

abbrev pub nobody : Leases
nobody = record { slot = none; leased = []; building = 0; lost = 0 }
