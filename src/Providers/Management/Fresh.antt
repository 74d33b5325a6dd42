-- ===== src/Providers/Management/Fresh.antt =====
-- How old a policy may be that a decision is made by.
use vyuu_mcp_gateway.Prelude.{
  ℕ, ◌+◌, ◌<◌, String, Option, none, some, List, [], ◌∷◌, Memᴰ, ltb, ◌==◌, ==_iff, Result, ok,
  raise, bind-ok, ◌≡◌, refl, sym, ap, ◌∙◌, subst, arith, inl, inr, Bool-cases, nat_eq, pair_eq,
}
use vyuu_mcp_gateway.Dict.{get, put, get-put}
use vyuu_mcp_gateway.ToolCalls.{PolicyDecision, ResolvedTool}
use vyuu_mcp_gateway.Providers.Management.{
  ManagementPolicyDocument, _CacheEntry, Cache, Context, decide, Serve, _fetch_policy, live,
  fetched, cached_or_fetched, _get_policy, on_policy, evaluate_for, evaluate_tool_call,
}

-- A call: the clock's reading, what the management plane would answer then, and the context.
pub record Call : Type 0 where
  pub now : ℕ
  pub serve : Serve
  pub context : Context

-- The management plane had the policy under the tenant and the id at the time of the call.
pub record ServedBy (tenant policy_id : ℕ) (policy : ManagementPolicyDocument) (c : Call)
    : Type 0 where
  pub served : c.serve tenant policy_id ≡ ok policy
  pub identified : policy.policy_id ≡ policy_id

module _ (ttl : ℕ) where
  -- The cache after a list of calls, the last of them first.
  unfoldable pub cache_after : List Call → Cache
  unfolding evaluate_tool_call
  cache_after [] = []
  cache_after (c ∷ before) = (evaluate_tool_call ttl c.now c.serve c.context (cache_after before)).0

  -- An entry was fetched by one of the calls, and expires `ttl` after it.
  pub record Fetched (calls : List Call) (key : ℕ × ℕ) (entry : _CacheEntry) : Type 0 where
    pub call : Call
    pub made : Memᴰ call calls
    pub by : ServedBy key.0 key.1 entry.policy call
    pub expiry : entry.expires_at ≡ call.now + ttl

  _fetch_policy_sound :
      (c : Call) (tenant policy_id : ℕ) {policy : ManagementPolicyDocument}
      → _fetch_policy c.serve tenant policy_id ≡ ok policy
      → ServedBy tenant policy_id policy c
  unfolding _fetch_policy
  _fetch_policy_sound c tenant policy_id {policy} h =
      let (answer, served, same) = bind-ok (c.serve tenant policy_id) _ h in
      elim (Bool-cases (answer.policy_id == policy_id)) [
        | inl right ↦
            let e = ok_is (rw right at same) in
            record {
              served = served ∙ ap ok e;
              identified =
                  sym (ap (λ (p : ManagementPolicyDocument). p.policy_id) e)
                  ∙ (==_iff answer.policy_id policy_id).0 right;
            }
        | inr wrong ↦ absurd (ground (arith, same, wrong))
      ]
    where
      ok_is :
          {x y : ManagementPolicyDocument}
          → ◌≡◌ {A = Result String ManagementPolicyDocument} (ok x) (ok y)
          → x ≡ y
      ok_is h = ground (arith, h)

  later :
      {calls : List Call} {key : ℕ × ℕ} {entry : _CacheEntry} (c : Call)
      → Fetched calls key entry
      → Fetched (c ∷ calls) key entry
  later c f = record { call = f.call; made = Memᴰ.tail f.made; by = f.by; expiry = f.expiry }

  abbrev AllFetched : List Call → Cache → Type 0
  AllFetched calls cache =
      (key : ℕ × ℕ) (entry : _CacheEntry) → get cache key ≡ some entry → Fetched calls key entry

  -- Where a policy comes from that is used at `now`.
  pub record Recent (calls : List Call) (now tenant policy_id : ℕ)
      (policy : ManagementPolicyDocument) : Type 0 where
    pub source : Call
    pub made : Memᴰ source calls
    pub by : ServedBy tenant policy_id policy source
    pub not_older : now < source.now + ttl

  live_sound :
      (now : ℕ) (o : Option _CacheEntry) {entry : _CacheEntry}
      → live now o ≡ some entry
      → (o ≡ some entry) × (now < entry.expires_at)
  live_sound now none h = absurd (ground arith)
  live_sound now (some e) {entry} h = elim (Bool-cases (ltb now e.expires_at)) [
    | inl fresh ↦
        let same = some_is (rw fresh at h) in
        (ap some same, subst (λ (x : _CacheEntry). now < x.expires_at) same (ground (arith, fresh)))
    | inr stale ↦ absurd (ground (arith, h, stale))
  ]
    where
      some_is : {x y : _CacheEntry} → ◌≡◌ {A = Option _CacheEntry} (some x) (some y) → x ≡ y
      some_is h = ground (arith, h)

  put-AllFetched :
      (c : Call) (before : List Call) (cache : Cache) (key : ℕ × ℕ)
      (policy : ManagementPolicyDocument)
      → ServedBy key.0 key.1 policy c
      → AllFetched before cache
      → AllFetched
          (c ∷ before)
          (put cache key (record { policy = policy; expires_at = c.now + ttl }))
  put-AllFetched c before cache key policy by h k entry found =
      elim (Bool-cases (pair_eq.beq key k)) [
        | inr other ↦ later c (h k entry (rw (get-put cache key k _, other) at found))
        | inl this ↦
            subst (λ z. Fetched (c ∷ before) z entry) ((pair_eq.beq_iff key k).0 this)
              (subst (Fetched (c ∷ before) key)
                (some_entry (rw (get-put cache key k _, this) at found))
                (record { call = c; made = Memᴰ.head refl; by = by; expiry = refl }))
      ]
    where
      some_entry : {x y : _CacheEntry} → ◌≡◌ {A = Option _CacheEntry} (some x) (some y) → x ≡ y
      some_entry h = ground (arith, h)

  module _ (c : Call) (before : List Call) (positive : 0 < ttl) where
    -- The cache stays as described, and a policy that is returned is recent.
    abbrev Sound : ℕ × ℕ → Cache × Result String ManagementPolicyDocument → Type 0
    Sound key out =
        AllFetched (c ∷ before) out.0
        × ((policy : ManagementPolicyDocument)
            → out.1 ≡ ok policy
            → Recent (c ∷ before) c.now key.0 key.1 policy)

    ok_policy :
        {x y : ManagementPolicyDocument}
        → ◌≡◌ {A = Result String ManagementPolicyDocument} (ok x) (ok y)
        → x ≡ y
    ok_policy h = ground (arith, h)

    fetched-Sound :
        (key : ℕ × ℕ) (cache : Cache) (r : Result String ManagementPolicyDocument)
        → AllFetched before cache
        → ((policy : ManagementPolicyDocument) → r ≡ ok policy → ServedBy key.0 key.1 policy c)
        → Sound key (fetched ttl c.now key cache r)
    fetched-Sound key cache (raise e) h by =
        (λ k entry found. later c (h k entry found), λ policy same. absurd (ground arith))
    fetched-Sound key cache (ok policy) h by = (
      put-AllFetched c before cache key policy (by policy refl) h,
      λ p same. record {
        source = c;
        made = Memᴰ.head refl;
        by = subst (λ q. ServedBy key.0 key.1 q c) (ok_policy same) (by policy refl);
        not_older = omega (arith, positive);
      },
    )

    cached_or_fetched-Sound :
        (key : ℕ × ℕ) (cache : Cache) (o : Option _CacheEntry)
        → AllFetched before cache
        → live c.now (get cache key) ≡ o
        → Sound key (cached_or_fetched ttl c.now c.serve key cache o)
    cached_or_fetched-Sound key cache none h e =
        fetched-Sound key cache _ h (λ policy same. _fetch_policy_sound c key.0 key.1 same)
    cached_or_fetched-Sound key cache (some entry) h e =
        let (found, fresh) = live_sound c.now (get cache key) e in
        let f = h key entry found in
        (
          λ k x m. later c (h k x m),
          λ p same. record {
            source = f.call;
            made = Memᴰ.tail f.made;
            by = subst (λ q. ServedBy key.0 key.1 q f.call) (ok_policy same) f.by;
            not_older = omega (arith, fresh, f.expiry);
          },
        )

    -- The decision on a context is that of a recent policy, or there is no policy attached.
    pub record Decided (decision : PolicyDecision) (policy_id : ℕ) : Type 0 where
      pub policy : ManagementPolicyDocument
      pub recent : Recent (c ∷ before) c.now c.context.tenant_id policy_id policy
      pub by_policy : decision ≡ decide policy c.context.tool

    on_policy-Decided :
        (policy_id : ℕ) (out : Cache × Result String ManagementPolicyDocument)
        {decision : PolicyDecision}
        → Sound (c.context.tenant_id, policy_id) out
        → (on_policy c.context.tool out).1 ≡ ok decision
        → Decided decision policy_id
    on_policy-Decided policy_id (cache, raise e) s h = absurd (ground arith)
    on_policy-Decided policy_id (cache, ok policy) s h = record {
      policy = policy;
      recent = s.1 policy refl;
      by_policy = ground (arith, h);
    }

  on_policy-cache :
      (tool : ResolvedTool) (out : Cache × Result String ManagementPolicyDocument)
      → (on_policy tool out).0 ≡ out.0
  on_policy-cache tool (cache, raise e) = refl
  on_policy-cache tool (cache, ok policy) = refl

  evaluate_for-AllFetched :
      (c : Call) (before : List Call) (cache : Cache) (o : Option ℕ)
      → 0 < ttl
      → AllFetched before cache
      → AllFetched (c ∷ before) (evaluate_for ttl c.now c.serve c.context o cache).0
  unfolding _get_policy
  evaluate_for-AllFetched c before cache none positive h =
      λ key entry found. later c (h key entry found)
  evaluate_for-AllFetched c before cache (some policy_id) positive h =
      subst (AllFetched (c ∷ before)) (sym (on_policy-cache c.context.tool _))
        (cached_or_fetched-Sound c before positive (c.context.tenant_id, policy_id) cache _ h
          refl).0

  cache_after-AllFetched : (calls : List Call) → 0 < ttl → AllFetched calls (cache_after calls)
  unfolding cache_after evaluate_tool_call get
  cache_after-AllFetched [] positive = λ key entry found. absurd (ground arith)
  cache_after-AllFetched (c ∷ before) positive =
      evaluate_for-AllFetched c before (cache_after before) c.context.policy_id positive
        (cache_after-AllFetched before positive)

  -- A decision about a virtual server with a policy is that of a policy which the management plane
  -- had under the tenant and the id at a call less than the time to live ago, or has now.
  pub policy_within_ttl :
      (c : Call) (before : List Call) (policy_id : ℕ) {decision : PolicyDecision}
      → 0 < ttl
      → c.context.policy_id ≡ some policy_id
      → (evaluate_tool_call ttl c.now c.serve c.context (cache_after before)).1 ≡ ok decision
      → (policy : ManagementPolicyDocument) × Recent
          (c ∷ before)
          c.now
          c.context.tenant_id
          policy_id
          policy
        × (decision ≡ decide policy c.context.tool)
  unfolding evaluate_tool_call _get_policy
  policy_within_ttl c before policy_id positive attached h =
      let d =
        on_policy-Decided c before positive policy_id _
          (cached_or_fetched-Sound c before positive (c.context.tenant_id, policy_id)
            (cache_after before) _ (cache_after-AllFetched before positive) refl)
          (rw (evaluate_tool_call, attached) at h) in
      (d.policy, d.recent, d.by_policy)
