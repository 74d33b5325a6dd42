-- ===== src/Upstream/Pool/Lease/Limits.antt =====
-- The limit on a key's clients, and the places that cancelled callers leave behind.
use vyuu_mcp_gateway.Prelude.{
  ℕ, zero, suc, ◌+◌, ◌*◌, ◌≤◌, ◌<◌, ◌≡◌, refl, inl, inr, Bool, true, false, none, some, List, [],
  ◌∷◌, ◌++◌, length, find, arith, ◌==◌, Option-cases,
}
use vyuu_mcp_gateway.Upstream.Pool.{
  Client, _PoolState, PoolConfig, Slot, _state_for, Decision, pool_closed, wait, build, reuse,
  decide, split_idle, _take_expired, pop_last, release,
}
use vyuu_mcp_gateway.Upstream.Pool.Lease.{
  Leases, Event, acquire, built, failed, end_lease, close, on_acquire, follow, remove_id, step, run,
  nobody,
}
use vyuu_mcp_gateway.Upstream.Pool.Lease.Capacity.{IsValid, run_from-IsValid}

abbrev pub idle_count : Slot → ℕ
idle_count none = 0
idle_count (some s) = length s.idle

clients_bound :
    (c : PoolConfig) (l : Leases)
    → IsValid c l
    → idle_count l.slot + length l.leased + l.building + l.lost ≤ c.max_clients_per_upstream
clients_bound c l v = elim (Option-cases l.slot) [
  | inl e ↦ ground arith
  | inr (s, e) ↦ ground arith
]

-- Whatever callers do, in any order, and with any failures, cancellations and closings: the clients of a
-- key that are idle, that callers hold and that are being built are together at most
-- `max_clients_per_upstream`, also counting the places that were lost.
pub never_over_capacity :
    (c : PoolConfig) (events : List Event)
    → idle_count (run c nobody events).slot
        + length (run c nobody events).leased
        + (run c nobody events).building
        + (run c nobody events).lost
      ≤ c.max_clients_per_upstream
never_over_capacity c events =
    clients_bound c (run c nobody events) (run_from-IsValid c nobody events (refl, refl, refl))

module _ (c : PoolConfig) where
  follow-lost :
      (l : Leases) (s : _PoolState) (d : Decision) (cut : Bool) → l.lost ≤ (follow l s d cut).lost
  follow-lost l s pool_closed cut = ground arith
  follow-lost l s wait cut = ground arith
  follow-lost l s build cut = ground arith
  follow-lost l s (reuse client) cut = ground arith

  step-lost : (l : Leases) (event : Event) → l.lost ≤ (step c l event).lost
  unfolding step on_acquire
  step-lost l (acquire now cancelled) = follow-lost l _ _ _
  step-lost l (built client) = ground arith
  step-lost l failed = elim (Option-cases l.slot) [
    | inl e ↦ ground arith
    | inr (s, e) ↦ ground arith
  ]
  step-lost l (end_lease i now discard) =
      elim (Option-cases (find (λ (x : Client). x.id == i) l.leased)) [
        | inl e ↦ rw e (ground arith)
        | inr (client, e) ↦ rw e (ground arith)
      ]
  step-lost l close = ground arith

  run-lost : (l : Leases) (events : List Event) → l.lost ≤ (run c l events).lost
  unfolding run
  run-lost l [] = ground arith
  run-lost l (event ∷ events) = omega (arith, step-lost l event, run-lost (step c l event) events)

  run-append : (l : Leases) (xs ys : List Event) → run c l (xs ++ ys) ≡ run c (run c l xs) ys
  unfolding run
  run-append l [] ys = refl
  run-append l (x ∷ xs) ys = run-append (step c l x) xs ys

abbrev some_client : Client
some_client = record { id = 0; takes_attributes = true; built_at = none }

-- Build a client and give it back at once; then be cancelled while closing it, when it reaches the age
-- limit.
abbrev pub one_cycle : ℕ → ℕ → List Event
one_cycle start age =
    acquire start false
    ∷ built some_client
    ∷ end_lease 0 start false
    ∷ acquire (start + age) true
    ∷ []

abbrev pub wear_out : ℕ → ℕ → List Event
wear_out age zero = []
wear_out age (suc n) = wear_out age n ++ one_cycle (n * age) age

-- Nobody has a client, and this many places are lost.
abbrev Worn : ℕ → Leases → Type 0
Worn k l =
    (_state_for l.slot ≡ record { idle = []; total = k; closing = false })
    × (l.leased ≡ [])
    × (l.building ≡ 0)
    × (l.lost ≡ k)

module _ (c : PoolConfig) (age : ℕ) (limit : c.client_max_age_seconds ≡ some age) where
  one_cycle-Worn :
      (l : Leases) (k start : ℕ)
      → k < c.max_clients_per_upstream
      → Worn k l
      → Worn (suc k) (run c l (one_cycle start age))
  unfolding run step on_acquire decide _take_expired split_idle pop_last release remove_id
  one_cycle-Worn l k start h w = ground arith

  wear_out-Worn : (n : ℕ) → n ≤ c.max_clients_per_upstream → Worn n (run c nobody (wear_out age n))
  unfolding run
  wear_out-Worn zero h = (refl, refl, refl, refl)
  wear_out-Worn (suc n) h = rw (run-append c nobody (wear_out age n) (one_cycle (n * age) age)) (
      one_cycle-Worn (run c nobody (wear_out age n)) n (n * age) (omega arith)
        (wear_out-Worn n (omega arith)))

-- With an age limit, there is a run of the pool in which callers are cancelled while they close aged
-- clients, and after which no caller holds or builds a client again, whatever is done later.
pub pool_runs_dry :
    (c : PoolConfig) (age : ℕ) (events : List Event)
    → c.client_max_age_seconds ≡ some age
    → (length (run c (run c nobody (wear_out age c.max_clients_per_upstream)) events).leased ≡ 0)
      × ((run c (run c nobody (wear_out age c.max_clients_per_upstream)) events).building ≡ 0)
pool_runs_dry c age events limit =
    let worn = run c nobody (wear_out age c.max_clients_per_upstream) in
    let (_, _, _, all_lost) = wear_out-Worn c age limit c.max_clients_per_upstream (omega arith) in
    let valid =
      run_from-IsValid c worn events
        (run_from-IsValid c nobody (wear_out age c.max_clients_per_upstream) (refl, refl, refl)) in
    let bound = clients_bound c (run c worn events) valid in
    let kept = run-lost c worn events in
    (omega (arith, bound, kept, all_lost), omega (arith, bound, kept, all_lost))
