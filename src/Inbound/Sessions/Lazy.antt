-- ===== src/Inbound/Sessions/Lazy.antt =====
-- The registry against a history of its calls, in which nothing is ever dropped.
use vyuu_mcp_gateway.Prelude.{
  ℕ, ◌≤◌, String, Bool, true, false, Option, none, some, List, [], ◌∷◌, All, ◌≡◌, refl, sym, ap,
  ◌∙◌, arith, ◌⊎◌, inl, inr, Bool-cases, if◌then◌else◌, nat_eq, text_eq, pair_eq,
}
use vyuu_mcp_gateway.Dict.{get, put, pop, get-put, get-pop}
use vyuu_mcp_gateway.ToolCalls.{GatewaySession}
use vyuu_mcp_gateway.Inbound.Sessions.{
  Sessions, is_expired, create_session, look_up, get_session, delete_session,
}

pub data Call : Type 0 where
  creates : GatewaySession → Call
  gets : ℕ → String → ℕ → Call
  deletes : ℕ → String → Call

unfoldable pub run : Sessions → List Call → Sessions
unfolding create_session get_session delete_session
run sessions [] = sessions
run sessions (creates session ∷ calls) = run (create_session session sessions) calls
run sessions (gets tenant id now ∷ calls) = run (get_session tenant id now sessions).0 calls
run sessions (deletes tenant id ∷ calls) = run (delete_session tenant id sessions) calls

-- The clock read at most `now` at the look-up.
abbrev pub NoLater : ℕ → Call → Type 0
NoLater now (creates session) = Unit
NoLater now (gets tenant id at) = at ≤ now
NoLater now (deletes tenant id) = Unit

module _ (key : ℕ × String) where
  abbrev same : ℕ → String → Bool
  same tenant id = pair_eq.beq (tenant, id) key

  -- The session that was created last under the key and not deleted since.
  unfoldable pub latest : Option GatewaySession → List Call → Option GatewaySession
  latest o [] = o
  latest o (creates s ∷ calls) = latest (if same s.tenant_id s.session_id then some s else o) calls
  latest o (gets tenant id now ∷ calls) = latest o calls
  latest o (deletes tenant id ∷ calls) = latest (if same tenant id then none else o) calls

abbrev pub visible : ℕ → Option GatewaySession → Option GatewaySession
visible now none = none
visible now (some session) = if is_expired session now then none else some session

module _ (key : ℕ × String) (now : ℕ) where
  -- The registry has what the history has, or has dropped what could not be seen any more.
  abbrev Agree : Sessions → Option GatewaySession → Type 0
  Agree sessions o = (get sessions key ≡ o) ⊎ ((get sessions key ≡ none) × (visible now o ≡ none))

  put-Agree :
      (sessions : Sessions) (o : Option GatewaySession) (k : ℕ × String) (s : GatewaySession)
      → Agree sessions o
      → Agree (put sessions k s) (if pair_eq.beq k key then some s else o)
  put-Agree sessions o k s a = elim (Bool-cases (pair_eq.beq k key)) [
    | inl this ↦ inl (rw (get-put sessions k key s, this) refl)
    | inr other ↦ rw (get-put sessions k key s, other) a
  ]

  pop-Agree :
      (sessions : Sessions) (o : Option GatewaySession) (k : ℕ × String)
      → Agree sessions o
      → Agree (pop sessions k) (if pair_eq.beq k key then none else o)
  pop-Agree sessions o k a = elim (Bool-cases (pair_eq.beq k key)) [
    | inl this ↦ inl (rw (get-pop sessions k key, this) refl)
    | inr other ↦ rw (get-pop sessions k key, other) a
  ]

  -- A session that is dropped by an earlier look-up cannot be seen later.
  expired_stays :
      (s : GatewaySession) (at : ℕ)
      → at ≤ now
      → is_expired s at ≡ true
      → visible now (some s) ≡ none
  expired_stays s at h e = ground (arith, h, e)

  look_up-Agree :
      (sessions : Sessions) (o found : Option GatewaySession) (k : ℕ × String) (at : ℕ)
      → at ≤ now
      → get sessions k ≡ found
      → Agree sessions o
      → Agree (look_up k at sessions found).0 o
  look_up-Agree sessions o none k at h e a = a
  look_up-Agree sessions o (some s) k at h e a = elim (Bool-cases (is_expired s at)) [
    | inr alive ↦ rw alive a
    | inl dead ↦ rw dead (elim (Bool-cases (pair_eq.beq k key)) [
      | inr other ↦ rw (get-pop sessions k key, other) a
      | inl this ↦
          let is_key = (pair_eq.beq_iff k key).0 this in
          inr (
            get-pop sessions k key ∙ gone this,
            elim a [
              | inr (_, hidden) ↦ hidden
              | inl has ↦
                  ap (visible now) (sym has ∙ ap (get sessions) (sym is_key) ∙ e)
                  ∙ expired_stays s at h dead
            ],
          )
    ])
  ]
    where
      gone :
          pair_eq.beq k key ≡ true → (if pair_eq.beq k key then none else get sessions key) ≡ none
      gone this = rw this refl

  run-Agree :
      (calls : List Call) (sessions : Sessions) (o : Option GatewaySession)
      → All (NoLater now) calls
      → Agree sessions o
      → Agree (run sessions calls) (latest key o calls)
  unfolding run latest create_session get_session delete_session
  run-Agree [] sessions o h a = a
  run-Agree (creates s ∷ calls) sessions o (_, h) a =
      run-Agree calls _ _ h (put-Agree sessions o (s.tenant_id, s.session_id) s a)
  run-Agree (gets tenant id at ∷ calls) sessions o (early, h) a =
      run-Agree calls _ o h (look_up-Agree sessions o _ (tenant, id) at early refl a)
  run-Agree (deletes tenant id ∷ calls) sessions o (_, h) a =
      run-Agree calls _ _ h (pop-Agree sessions o (tenant, id) a)

look_up-visible :
    (key : ℕ × String) (now : ℕ) (sessions : Sessions) (found o : Option GatewaySession)
    → (found ≡ o) ⊎ ((found ≡ none) × (visible now o ≡ none))
    → (look_up key now sessions found).1 ≡ visible now o
look_up-visible key now sessions none o (inl same) = ap (visible now) same
look_up-visible key now sessions none o (inr (_, hidden)) = sym hidden
look_up-visible key now sessions (some s) o (inl same) =
    answer (Bool-cases (is_expired s now)) ∙ ap (visible now) same
  where
    answer :
        (is_expired s now ≡ true) ⊎ (is_expired s now ≡ false)
        → (look_up key now sessions (some s)).1 ≡ visible now (some s)
    answer (inl dead) = rw dead refl
    answer (inr alive) = rw alive refl
look_up-visible key now sessions (some s) o (inr (missing, _)) = absurd (ground (arith, missing))

-- A look-up, after any calls whose clock readings are not later than its own, returns the session
-- that was created last for this tenant and this id and not deleted since, if it has not expired:
-- that expired sessions are dropped on the way cannot be observed.
pub get_session_refines :
    (calls : List Call) (tenant : ℕ) (session_id : String) (now : ℕ)
    → All (NoLater now) calls
    → (get_session tenant session_id now (run [] calls)).1
      ≡ visible now (latest (tenant, session_id) none calls)
unfolding get_session get
get_session_refines calls tenant session_id now h =
    look_up-visible (tenant, session_id) now (run [] calls) _ _
      (run-Agree (tenant, session_id) now calls [] none h (inl refl))
