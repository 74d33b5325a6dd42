-- ===== src/Upstream/Pool/Lease/Capacity.antt =====
-- How many clients a key can have at once.
use vyuu_mcp_gateway.Prelude.{
  ℕ, ◌+◌, ◌≤◌, ◌<◌, ◌≡◌, refl, inl, inr, Bool, true, Option, none, some, List, [], ◌∷◌, map, length,
  length-append, Bool-cases, Option-cases, find, arith, ◌==◌,
}
use vyuu_mcp_gateway.Upstream.Pool.{
  Client, stamped, created_at, _PoolState, PoolConfig, _state_for, Decision, pool_closed, wait,
  build, reuse, decide, split_idle, _take_expired, pop_last, build_failed, release, close_key,
}
use vyuu_mcp_gateway.Upstream.Pool.Lease.{
  Leases, Event, acquire, built, failed, end_lease, close, on_acquire, follow, fail_in, end_found,
  remove_id, step, run,
}

length-split_idle :
    (age now : ℕ) (idle : List (Client × ℕ))
    → length (split_idle age now idle).0 + length (split_idle age now idle).1 ≡ length idle
unfolding split_idle
length-split_idle age now [] = refl
length-split_idle age now ((client, t) ∷ idle) = ground (arith, length-split_idle age now idle)

length-_take_expired :
    (age : Option ℕ) (now : ℕ) (idle : List (Client × ℕ))
    → length (_take_expired age now idle).0 + length (_take_expired age now idle).1 ≡ length idle
unfolding _take_expired
length-_take_expired none now idle = ground arith
length-_take_expired (some age) now idle = length-split_idle age now idle

abbrev idle_left : Option (Client × List (Client × ℕ)) → ℕ
idle_left none = 0
idle_left (some (client, rest)) = length rest + 1

length-pop_last : (idle : List (Client × ℕ)) → idle_left (pop_last idle) ≡ length idle
unfolding pop_last
length-pop_last [] = refl
length-pop_last (entry ∷ idle) = ground (arith, length-pop_last idle)

length-map : (idle : List (Client × ℕ)) → length (map (λ e. e.0) idle) ≡ length idle
length-map [] = refl
length-map (entry ∷ idle) = ground (arith, length-map idle)

length-remove_id :
    (i : ℕ) (clients : List Client) {x : Client}
    → find (λ y. y.id == i) clients ≡ some x
    → length (remove_id i clients) + 1 ≡ length clients
unfolding remove_id
length-remove_id i [] h = absurd (ground arith)
length-remove_id i (client ∷ clients) h = elim (Bool-cases (client.id == i)) [
  | inl e ↦ rw e (omega arith)
  | inr e ↦ let later = length-remove_id i clients (rw e at h) in rw e (omega (arith, later))
]

-- The count in the slot is that of the clients that it stands for.
pub record Accounted (c : PoolConfig) (l : Leases) (s : _PoolState) : Type 0 where
  pub counted : s.total ≡ length s.idle + length l.leased + l.building + l.lost
  pub bounded : s.total ≤ c.max_clients_per_upstream
  pub closing_in_use : s.closing ≡ true → 0 < s.total

-- A dropped state has no client left.
abbrev pub IsValid : PoolConfig → Leases → Type 0
IsValid c l = elim l.slot [
  | none ↦ (length l.leased ≡ 0) × (l.building ≡ 0) × (l.lost ≡ 0)
  | some s ↦ Accounted c l s
]

-- How many clients a decision hands to the caller.
abbrev handed : Decision → ℕ
handed pool_closed = 0
handed wait = 0
handed build = 1
handed (reuse client) = 1

record Decided (c : PoolConfig) (s s' : _PoolState) (d : Decision) : Type 0 where
  counted : s'.total + length s.idle ≡ s.total + length s'.idle + handed d
  bounded : s'.total ≤ c.max_clients_per_upstream
  as_before : s'.closing ≡ true → s'.total ≡ s.total
  same_closing : s'.closing ≡ s.closing

module _ (c : PoolConfig) where
  decide-Decided :
      (now : ℕ) (s : _PoolState)
      → length s.idle ≤ s.total
      → s.total ≤ c.max_clients_per_upstream
      → Decided c s (decide c now s).0 (decide c now s).1
  unfolding decide
  decide-Decided now s h m =
      let (expired, fresh) = _take_expired c.client_max_age_seconds now s.idle in
      ground
        (arith, length-_take_expired c.client_max_age_seconds now s.idle, length-pop_last fresh)

  state-Accounted : (l : Leases) → IsValid c l → Accounted c l (_state_for l.slot)
  state-Accounted l v = elim (Option-cases l.slot) [
    | inl e ↦ ground arith
    | inr (s, e) ↦ ground arith
  ]

  follow-IsValid :
      (l : Leases) (s s' : _PoolState) (d : Decision) (cut : Bool)
      → Accounted c l s
      → Decided c s s' d
      → IsValid c (follow l s' d cut)
  follow-IsValid l s s' pool_closed cut v d = ground arith
  follow-IsValid l s s' wait cut v d = ground arith
  follow-IsValid l s s' build cut v d = ground arith
  follow-IsValid l s s' (reuse client) cut v d = ground arith

  release-IsValid :
      (l : Leases) (client : Client) (now i : ℕ) (discard : Bool)
      → find (λ y. y.id == i) l.leased ≡ some client
      → IsValid c l
      → IsValid c
          (record l { slot = (release l.slot client now discard).0; leased = remove_id i l.leased })
  unfolding release
  release-IsValid l client now i discard h v = elim (Option-cases l.slot) [
    | inl e ↦ ground (arith, length-remove_id i l.leased h)
    | inr (s, e) ↦ ground (
      arith,
      length-remove_id i l.leased h,
      length-append s.idle ((stamped client now, created_at client now) ∷ []),
    )
  ]

  close_key-IsValid :
      (l : Leases) → IsValid c l → IsValid c (record l { slot = (close_key l.slot).0 })
  unfolding close_key
  close_key-IsValid l v = elim (Option-cases l.slot) [
    | inl e ↦ ground arith
    | inr (s, e) ↦ ground (arith, length-map s.idle)
  ]

  failed-IsValid : (l : Leases) → 0 < l.building → IsValid c l → IsValid c (fail_in l)
  unfolding build_failed
  failed-IsValid l busy v = elim (Option-cases l.slot) [
    | inl e ↦ ground arith
    | inr (s, e) ↦ ground arith
  ]

  on_acquire-IsValid :
      (now : ℕ) (cancelled : Bool) (l : Leases)
      → IsValid c l
      → IsValid c (on_acquire c now cancelled l)
  unfolding on_acquire
  on_acquire-IsValid now cancelled l v =
      let s = _state_for l.slot in
      let acc = state-Accounted l v in
      follow-IsValid l s (decide c now s).0 (decide c now s).1 _ acc
        (decide-Decided now s (omega (arith, acc.counted)) acc.bounded)

  built-IsValid : (l : Leases) (client : Client) → IsValid c l → IsValid c (step c l (built client))
  unfolding step
  built-IsValid l client v = elim (Option-cases l.slot) [
    | inl e ↦ ground arith
    | inr (s, e) ↦ ground arith
  ]

  end_found-IsValid :
      (l : Leases) (i now : ℕ) (discard : Bool)
      → IsValid c l
      → IsValid c (end_found l now discard i (find (λ x. x.id == i) l.leased))
  end_found-IsValid l i now discard v =
      elim (Option-cases (find (λ (x : Client). x.id == i) l.leased)) [
        | inl e ↦ rw e v
        | inr (client, e) ↦ rw e (release-IsValid l client now i discard e v)
      ]

  step-IsValid : (l : Leases) (event : Event) → IsValid c l → IsValid c (step c l event)
  unfolding step
  step-IsValid l (acquire now cancelled) v = on_acquire-IsValid now cancelled l v
  step-IsValid l (built client) v = built-IsValid l client v
  step-IsValid l failed v = elim (Bool-cases (l.building == 0)) [
    | inl e ↦ rw e v
    | inr e ↦ rw e (failed-IsValid l (ground arith) v)
  ]
  step-IsValid l (end_lease i now discard) v = end_found-IsValid l i now discard v
  step-IsValid l close v = close_key-IsValid l v

  pub run_from-IsValid :
      (l : Leases) (events : List Event) → IsValid c l → IsValid c (run c l events)
  unfolding run
  run_from-IsValid l [] v = v
  run_from-IsValid l (event ∷ events) v =
      run_from-IsValid (step c l event) events (step-IsValid l event v)
