-- ===== src/Upstream/Pool/Lease/Fresh.antt =====
-- Which client an acquire may take from the idle ones.
use vyuu_mcp_gateway.Prelude.{
  ℕ, ◌+◌, ◌<◌, ◌≡◌, inl, inr, Option, none, some, List, [], ◌∷◌, Memᴰ, head_or_tail, arith, leb,
  Bool-cases, Option-cases,
}
use vyuu_mcp_gateway.Upstream.Pool.{
  Client, _PoolState, PoolConfig, reuse, decide, split_idle, _take_expired, pop_last,
}

pop_last_sound :
    (idle : List (Client × ℕ)) {client : Client} {rest : List (Client × ℕ)}
    → pop_last idle ≡ some (client, rest)
    → (t : ℕ) × Memᴰ (client, t) idle
unfolding pop_last
pop_last_sound [] h = absurd (ground arith)
pop_last_sound ((x, t) ∷ idle) {client} h = elim (Option-cases (pop_last idle)) [
  | inl e ↦ (t, Memᴰ.head (ground arith))
  | inr ((y, before), e) ↦
      let same : y ≡ client = ground arith in
      let (u, m) = pop_last_sound idle e in (u, Memᴰ.tail (rw same at m))
]

split_idle_sound :
    (age now : ℕ) {entry : Client × ℕ} (idle : List (Client × ℕ))
    → Memᴰ entry (split_idle age now idle).1
    → Memᴰ entry idle × (now < entry.1 + age)
unfolding split_idle
split_idle_sound age now [] m = elim m [ ]
split_idle_sound age now ((x, t) ∷ idle) m = elim (Bool-cases (leb (t + age) now)) [
  | inl stale ↦ let (i, h) = split_idle_sound age now idle (rw stale at m) in (Memᴰ.tail i, h)
  | inr fresh ↦ elim (head_or_tail (rw fresh at m)) [
    | inl e ↦ (Memᴰ.head e, rw e (ground arith))
    | inr later ↦ let (i, h) = split_idle_sound age now idle later in (Memᴰ.tail i, h)
  ]
]

-- What is left after the expired clients are taken out is at most as old as the limit allows.
_take_expired_sound :
    (age now : ℕ) (limit : Option ℕ) {entry : Client × ℕ} (idle : List (Client × ℕ))
    → limit ≡ some age
    → Memᴰ entry (_take_expired limit now idle).1
    → Memᴰ entry idle × (now < entry.1 + age)
unfolding _take_expired
_take_expired_sound age now none idle e m = absurd (ground arith)
_take_expired_sound age now (some a) {entry} idle e m =
    let same : a ≡ age = ground arith in
    let (i, h) = split_idle_sound a now {entry = entry} idle m in (i, omega arith)

-- With an age limit, a client that an acquire takes from the idle ones was among them with a time that is
-- less than the limit ago; an acquire never hands out an idle client of that age or older.
pub reuse_is_fresh :
    (c : PoolConfig) (age now : ℕ) (s s' : _PoolState) (client : Client) (expired : List Client)
    → c.client_max_age_seconds ≡ some age
    → decide c now s ≡ (s', reuse client, expired)
    → (t : ℕ) × Memᴰ (client, t) s.idle × (now < t + age)
unfolding decide
reuse_is_fresh c age now s s' client expired limit h =
    let (stale, fresh) = _take_expired c.client_max_age_seconds now s.idle in
    elim (Option-cases (pop_last fresh)) [
      | inl e ↦ absurd (ground arith)
      | inr ((x, rest), e) ↦
          let same : x ≡ client = ground arith in
          let (t, m) = pop_last_sound fresh e in
          let (i, young) = _take_expired_sound age now c.client_max_age_seconds s.idle limit m in
          (t, rw same at i, young)
    ]
