-- ===== src/Inbound/Gate/Bound.antt =====
-- How many requests of a tenant are in flight, through any sequence of requests and ends.
use vyuu_mcp_gateway.Prelude.{
  ℕ, zero, suc, ◌+◌, ◌≤◌, ◌<◌, ◌↔◌, String, true, false, not, ◌||◌, Option, none, some, List, [],
  ◌∷◌, any, str_eq, ◌==◌, ==_iff, Result, ok, ◌≡◌, refl, subst, arith, inl, inr, Bool-cases,
  Option-cases, if◌then◌else◌, nat_eq,
}
use vyuu_mcp_gateway.Dict.{get, get-put}
use vyuu_mcp_gateway.Inbound.Gate.{
  Scope, PerTenantInflightGate, GateError, new_gate, Admission, bypassed, admitted, refused,
  _deep_health_path, _extract_tenant, free_places, take_place, enter_tenant, enter, leave,
}

-- The tenants of the requests that run on a place.
abbrev pub count_of : ℕ → List ℕ → ℕ
count_of tenant [] = 0
count_of tenant (t ∷ ts) = (if t == tenant then 1 else 0) + count_of tenant ts

abbrev pub remove_one : ℕ → List ℕ → List ℕ
remove_one tenant [] = []
remove_one tenant (t ∷ ts) = let rest = remove_one tenant ts in if t == tenant then ts else t ∷ rest

pub record Traffic : Type 0 where
  pub gate : PerTenantInflightGate
  pub inflight : List ℕ

-- A request arrives; a request of the tenant ends.
pub data Step : Type 0 where
  arrives : Scope → Step
  ends : ℕ → Step

abbrev after_entry : Traffic → PerTenantInflightGate × Admission → Traffic
after_entry s (gate, bypassed) = record s { gate = gate }
after_entry s (gate, admitted tenant) = record { gate = gate; inflight = tenant ∷ s.inflight }
after_entry s (gate, refused tenant) = record s { gate = gate }

module _ (liveness_paths : List String) (mcp_tenant : String → Option String)
    (uuid_of : String → Option ℕ) where
  -- Only a request that is in flight ends.
  unfoldable pub step : Traffic → Step → Traffic
  unfolding enter leave
  step s (arrives scope) = after_entry s (enter liveness_paths mcp_tenant uuid_of s.gate scope)
  step s (ends tenant) =
      if 0 == count_of tenant s.inflight
      then s
      else record { gate = leave s.gate tenant; inflight = remove_one tenant s.inflight }

  unfoldable pub run : Traffic → List Step → Traffic
  unfolding step
  run s [] = s
  run s (e ∷ es) = run (step s e) es

  -- The free places of a tenant and its requests in flight make up the limit.
  abbrev Balanced : ℕ → Traffic → Type 0
  Balanced limit s =
      (s.gate.limit ≡ limit)
      × ((t : ℕ)
          → free_places liveness_paths mcp_tenant uuid_of s.gate (get s.gate.semaphores t)
              + count_of t s.inflight
            ≡ limit)

  count_of-remove_one :
      (tenant t : ℕ) (ts : List ℕ)
      → 0 < count_of tenant ts
      → count_of t (remove_one tenant ts) + (if tenant == t then 1 else 0) ≡ count_of t ts
  count_of-remove_one tenant t [] h = absurd (omega (arith, h))
  count_of-remove_one tenant t (x ∷ xs) h = ground (arith, count_of-remove_one tenant t xs)

  take_place-Balanced :
      (limit : ℕ) (s : Traffic) (tenant : ℕ) (free : ℕ)
      → Balanced limit s
      → free + count_of tenant s.inflight ≡ limit
      → Balanced limit
          (after_entry s (take_place liveness_paths mcp_tenant uuid_of s.gate tenant free))
  take_place-Balanced limit s tenant zero (same, b) e =
      (same, λ t. ground (arith, get-put s.gate.semaphores tenant t 0, b t, e, ==_iff tenant t))
  take_place-Balanced limit s tenant (suc free) (same, b) e =
      (same, λ t. ground (arith, get-put s.gate.semaphores tenant t free, b t, e, ==_iff tenant t))

  enter_tenant-Balanced :
      (limit : ℕ) (s : Traffic) (o : Option ℕ)
      → Balanced limit s
      → Balanced limit (after_entry s (enter_tenant liveness_paths mcp_tenant uuid_of s.gate o))
  enter_tenant-Balanced limit s none b = b
  enter_tenant-Balanced limit s (some tenant) (same, b) =
      take_place-Balanced limit s tenant _ (same, b) (b tenant)

  arrives-Balanced :
      (limit : ℕ) (s : Traffic) (scope : Scope)
      → Balanced limit s
      → Balanced limit (step s (arrives scope))
  unfolding step enter
  arrives-Balanced limit s scope b =
      elim (Bool-cases (
        not (str_eq scope.type "http")
        || (any (λ p. str_eq p scope.path) liveness_paths
            || str_eq scope.path _deep_health_path))) [
              | inl outside ↦ rw (step, enter, outside) b
              | inr inside ↦
                  rw (step, enter, inside)
                    (enter_tenant-Balanced limit s
                      (_extract_tenant liveness_paths mcp_tenant uuid_of scope) b)
            ]

  ends-Balanced :
      (limit : ℕ) (s : Traffic) (tenant : ℕ)
      → Balanced limit s
      → Balanced limit (step s (ends tenant))
  unfolding step leave
  ends-Balanced limit s tenant (same, b) = elim (Bool-cases (0 == count_of tenant s.inflight)) [
    | inl absent ↦ rw (step, absent) (same, b)
    | inr present ↦ elim (Option-cases (get s.gate.semaphores tenant)) [
      | inl missing ↦ absurd (ground (arith, same, rw missing at (b tenant), present))
      | inr (free, found) ↦
          rw (step, leave, present, found)
            (
              same,
              λ t. ground (
                arith,
                get-put s.gate.semaphores tenant t (suc free),
                rw found at (b tenant),
                b t,
                present,
                ==_iff tenant t,
                count_of-remove_one tenant t s.inflight,
              ),
            )
    ]
  ]

  run-Balanced :
      (limit : ℕ) (s : Traffic) (es : List Step) → Balanced limit s → Balanced limit (run s es)
  unfolding run
  run-Balanced limit s [] b = b
  run-Balanced limit s (arrives scope ∷ es) b =
      run-Balanced limit (step s (arrives scope)) es (arrives-Balanced limit s scope b)
  run-Balanced limit s (ends tenant ∷ es) b =
      run-Balanced limit (step s (ends tenant)) es (ends-Balanced limit s tenant b)

  take_place_refuses :
      (gate : PerTenantInflightGate) (tenant free : ℕ)
      → ((take_place liveness_paths mcp_tenant uuid_of gate tenant free).1 ≡ refused tenant)
        ↔ (free ≡ 0)
  take_place_refuses gate tenant zero = (λ _. refl, λ _. refl)
  take_place_refuses gate tenant (suc free) =
      (λ h. absurd (ground arith), λ h. absurd (omega (arith, h)))

  new_gate-Balanced :
      (limit : ℕ) {gate : PerTenantInflightGate}
      → new_gate limit ≡ ok gate
      → Balanced limit (record { gate = gate; inflight = [] })
  unfolding new_gate get
  new_gate-Balanced limit {gate} made = elim (Bool-cases (limit == 0)) [
    | inl zero_limit ↦ absurd (ground (arith, made, zero_limit))
    | inr positive ↦
        subst (λ g. Balanced limit (record { gate = g; inflight = [] }))
          (made_is (rw positive at made)) (refl, λ t. omega arith)
  ]
    where
      made_is :
          ◌≡◌ {A = Result GateError PerTenantInflightGate}
            (ok (record { limit = limit; semaphores = [] }))
            (ok gate)
          → record { limit = limit; semaphores = [] } ≡ gate
      made_is h = ground (arith, h)

  -- A new gate, after any requests and ends: no tenant has more requests in flight than the limit, and
  -- an HTTP request of a tenant outside the health paths is refused exactly if as many requests of this
  -- tenant are in flight as the limit says.
  pub refused_exactly_at_limit :
      (limit : ℕ) {gate : PerTenantInflightGate} (es : List Step) (scope : Scope) (tenant : ℕ)
      → new_gate limit ≡ ok gate
      → str_eq scope.type "http" ≡ true
      → (any (λ p. str_eq p scope.path) liveness_paths || str_eq scope.path _deep_health_path)
        ≡ false
      → _extract_tenant liveness_paths mcp_tenant uuid_of scope ≡ some tenant
      → (count_of tenant (run (record { gate = gate; inflight = [] }) es).inflight ≤ limit)
        × (((enter liveness_paths mcp_tenant uuid_of
                (run (record { gate = gate; inflight = [] }) es).gate
                scope).1
              ≡ refused tenant)
            ↔ (count_of tenant (run (record { gate = gate; inflight = [] }) es).inflight ≡ limit))
  unfolding new_gate enter
  refused_exactly_at_limit limit {gate} es scope tenant made http inside known =
      let s = run (record { gate = gate; inflight = [] }) es in
      let (_, b) =
        run-Balanced limit (record { gate = gate; inflight = [] }) es
          (new_gate-Balanced limit made) in
      let free =
        free_places liveness_paths mcp_tenant uuid_of s.gate (get s.gate.semaphores tenant) in
      let (out, back) = take_place_refuses s.gate tenant free in
      let outside : (not (str_eq scope.type "http")
            || (any (λ p. str_eq p scope.path) liveness_paths
                || str_eq scope.path _deep_health_path))
          ≡ false =
        ground (arith, http, inside) in
      (
        omega (arith, b tenant),
        rw (enter, outside, known)
            (λ h. omega (arith, b tenant, out h), λ h. back (omega (arith, b tenant, h))),
      )
