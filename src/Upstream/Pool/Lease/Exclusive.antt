-- ===== src/Upstream/Pool/Lease/Exclusive.antt =====
-- Where a client is: idle, or with which callers.
use vyuu_mcp_gateway.Prelude.{
  ℕ, ◌+◌, ◌≤◌, ◌≡◌, refl, inl, inr, Bool, Option, none, some, List, [], ◌∷◌, ◌++◌, find, arith,
  ◌==◌, if◌then◌else◌, Bool-cases, Option-cases,
}
use vyuu_mcp_gateway.Upstream.Pool.{
  Client, stamped, created_at, _PoolState, PoolConfig, Slot, _state_for, Decision, pool_closed,
  wait, build, reuse, decide, split_idle, _take_expired, pop_last, build_failed, release, close_key,
}
use vyuu_mcp_gateway.Upstream.Pool.Lease.{
  Leases, Event, acquire, built, failed, end_lease, close, on_acquire, follow, remove_id, step, run,
  nobody,
}

-- 1 for a client with this id.
abbrev is_client : ℕ → Client → ℕ
is_client i client = if client.id == i then 1 else 0

abbrev leased_count : ℕ → List Client → ℕ
leased_count i [] = 0
leased_count i (client ∷ clients) = is_client i client + leased_count i clients

abbrev entry_count : ℕ → List (Client × ℕ) → ℕ
entry_count i [] = 0
entry_count i (entry ∷ entries) = is_client i entry.0 + entry_count i entries

abbrev slot_count : ℕ → Slot → ℕ
slot_count i none = 0
slot_count i (some s) = entry_count i s.idle

-- In how many places the client with this id is, as an idle one or with a caller.
abbrev pub places : ℕ → Leases → ℕ
places i l = slot_count i l.slot + leased_count i l.leased

-- How often the factory returns the client with this id.
abbrev pub times_built : ℕ → List Event → ℕ
times_built i [] = 0
times_built i (built client ∷ events) = is_client i client + times_built i events
times_built i (acquire now cancelled ∷ events) = times_built i events
times_built i (failed ∷ events) = times_built i events
times_built i (end_lease j now discard ∷ events) = times_built i events
times_built i (close ∷ events) = times_built i events

module _ (i : ℕ) where
  count-split_idle :
      (age now : ℕ) (idle : List (Client × ℕ))
      → entry_count i (split_idle age now idle).1 ≤ entry_count i idle
  unfolding split_idle
  count-split_idle age now [] = ground arith
  count-split_idle age now ((client, t) ∷ idle) = ground (arith, count-split_idle age now idle)

  count-_take_expired :
      (age : Option ℕ) (now : ℕ) (idle : List (Client × ℕ))
      → entry_count i (_take_expired age now idle).1 ≤ entry_count i idle
  unfolding _take_expired
  count-_take_expired none now idle = ground arith
  count-_take_expired (some age) now idle = count-split_idle age now idle

  popped_count : Option (Client × List (Client × ℕ)) → ℕ
  popped_count none = 0
  popped_count (some (client, rest)) = is_client i client + entry_count i rest

  count-pop_last : (idle : List (Client × ℕ)) → popped_count (pop_last idle) ≡ entry_count i idle
  unfolding pop_last popped_count
  count-pop_last [] = refl
  count-pop_last (entry ∷ idle) = ground (arith, count-pop_last idle)

  count-append :
      (idle : List (Client × ℕ)) (entry : Client × ℕ)
      → entry_count i (idle ++ (entry ∷ [])) ≡ entry_count i idle + is_client i entry.0
  count-append [] entry = ground arith
  count-append (x ∷ idle) entry = omega (arith, count-append idle entry)

  count-remove_id :
      (j : ℕ) (clients : List Client) {client : Client}
      → find (λ y. y.id == j) clients ≡ some client
      → leased_count i clients ≡ leased_count i (remove_id j clients) + is_client i client
  unfolding remove_id
  count-remove_id j [] h = absurd (ground arith)
  count-remove_id j (x ∷ clients) {client} h = elim (Bool-cases (x.id == j)) [
    | inl e ↦ let same : x ≡ client = ground arith in rw (e, same) (omega arith)
    | inr e ↦ let later = count-remove_id j clients (rw e at h) in rw e (omega (arith, later))
  ]

  decision_count : Decision → ℕ
  decision_count (reuse client) = is_client i client
  decision_count pool_closed = 0
  decision_count wait = 0
  decision_count build = 0

  count-decide :
      (c : PoolConfig) (now : ℕ) (s : _PoolState)
      → entry_count i (decide c now s).0.idle + decision_count (decide c now s).1
        ≤ entry_count i s.idle
  unfolding decide decision_count popped_count
  count-decide c now s =
      let (expired, fresh) = _take_expired c.client_max_age_seconds now s.idle in
      ground (arith, count-_take_expired c.client_max_age_seconds now s.idle, count-pop_last fresh)

  places-follow :
      (l : Leases) (s : _PoolState) (d : Decision) (cut : Bool)
      → places i (follow l s d cut)
        ≤ entry_count i s.idle + decision_count d + leased_count i l.leased
  unfolding decision_count
  places-follow l s pool_closed cut = ground arith
  places-follow l s wait cut = ground arith
  places-follow l s build cut = ground arith
  places-follow l s (reuse client) cut = ground arith

  state_count : (slot : Slot) → entry_count i (_state_for slot).idle ≡ slot_count i slot
  state_count none = refl
  state_count (some s) = refl

  count-release :
      (slot : Slot) (client : Client) (now : ℕ) (discard : Bool)
      → slot_count i (release slot client now discard).0 ≤ slot_count i slot + is_client i client
  unfolding release
  count-release none client now discard = ground arith
  count-release (some s) client now discard =
      ground (arith, count-append s.idle (stamped client now, created_at client now))

  count-close_key : (slot : Slot) → slot_count i (close_key slot).0 ≡ 0
  unfolding close_key
  count-close_key none = refl
  count-close_key (some s) = ground arith

  count-build_failed : (s : _PoolState) → slot_count i (build_failed s) ≤ entry_count i s.idle
  unfolding build_failed
  count-build_failed s = ground arith

  places-on_acquire :
      (c : PoolConfig) (now : ℕ) (cancelled : Bool) (l : Leases)
      → places i (on_acquire c now cancelled l) ≤ places i l
  unfolding on_acquire
  places-on_acquire c now cancelled l = omega (
    arith,
    count-decide c now (_state_for l.slot),
    state_count l.slot,
    places-follow l (decide c now (_state_for l.slot)).0 (decide c now (_state_for l.slot)).1 _,
  )

  places-step :
      (c : PoolConfig) (l : Leases) (event : Event)
      → places i (step c l event) ≤ places i l + times_built i (event ∷ [])
  unfolding step
  places-step c l (acquire now cancelled) = omega (arith, places-on_acquire c now cancelled l)
  places-step c l (built client) = ground arith
  places-step c l failed = elim (Option-cases l.slot) [
    | inl e ↦ ground arith
    | inr (s, e) ↦ ground (arith, count-build_failed s)
  ]
  places-step c l (end_lease j now discard) =
      elim (Option-cases (find (λ (x : Client). x.id == j) l.leased)) [
        | inl e ↦ rw e (ground arith)
        | inr (client, e) ↦
            rw e
              (omega (arith, count-release l.slot client now discard, count-remove_id j l.leased e))
      ]
  places-step c l close = omega (arith, count-close_key l.slot)

  times_built-cons :
      (event : Event) (events : List Event)
      → times_built i (event ∷ events) ≡ times_built i (event ∷ []) + times_built i events
  times_built-cons (acquire now cancelled) events = omega arith
  times_built-cons (built client) events = omega arith
  times_built-cons failed events = omega arith
  times_built-cons (end_lease j now discard) events = omega arith
  times_built-cons close events = omega arith

  places-run :
      (c : PoolConfig) (l : Leases) (events : List Event)
      → places i (run c l events) ≤ places i l + times_built i events
  unfolding run
  places-run c l [] = omega arith
  places-run c l (event ∷ events) = omega (
    arith,
    places-step c l event,
    times_built-cons event events,
    places-run c (step c l event) events,
  )

-- If the factory never returns the same client twice, then no client is ever in two places: never held by
-- two callers, never idle twice, and never idle while a caller holds it.
pub never_shared :
    (c : PoolConfig) (events : List Event) (i : ℕ)
    → times_built i events ≤ 1
    → places i (run c nobody events) ≤ 1
never_shared c events i once = omega (arith, places-run i c nobody events)
