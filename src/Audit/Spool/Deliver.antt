-- ===== src/Audit/Spool/Deliver.antt =====
-- What a replay delivers, and what it leaves in the spool.
use vyuu_mcp_gateway.Prelude.{
  ℕ, ◌+◌, false, Option, some, List, [], ◌∷◌, ◌++◌, All, length, Result, ok, raise, ◌≡◌, refl, sym,
  ap, subst, arith, ◌⊎◌, inl, inr,
}
use vyuu_mcp_gateway.Audit.Lines.{Text, is_empty, OneLine}
use vyuu_mcp_gateway.Audit.Spool.{
  SpoolError, producer_failed, DiskSpool, content, payload, read_events, Produced, produced, failed,
  replay_events, replay_read, replay_to,
}
use vyuu_mcp_gateway.Audit.Spool.Replay.{read_payload, read_content}

-- The producer takes each of the events in turn.
pub data Takes {E P : Type 0} (produce : E → P → Produced P) : P → List E → P → Type 0 where
  none_taken : {p : P} → Takes produce p [] p
  one_more :
      {p q r : P} {event : E} {events : List E}
      → produce event p ≡ produced q
      → Takes produce q events r
      → Takes produce p (event ∷ events) r

Produced-cases :
    {P : Type 0} (r : Produced P) → ((q : P) × (r ≡ produced q)) ⊎ ((q : P) × (r ≡ failed q))
Produced-cases (produced q) = inl (q, refl)
Produced-cases (failed q) = inr (q, refl)

module _ {E P : Type 0} (produce : E → P → Produced P) where
  -- The producer took `done`; either nothing is left and `m` of the events are counted from `n` on,
  -- or the first of `rest` failed.
  pub record Replayed (events : List E) (p : P) (rest : List E) (q : P) (n m : ℕ) : Type 0 where
    pub done : List E
    pub before : P
    pub split : done ++ rest ≡ events
    pub taken : Takes produce p done before
    pub ending :
        ((rest ≡ []) × (q ≡ before) × (m ≡ n + length done))
        ⊎ ((event : E) × (later : List E) × (rest ≡ event ∷ later)
            × (produce event before ≡ failed q))

  Replayed-more :
      (event : E) (events : List E) (p next : P) (n : ℕ) {rest : List E} {q : P} {m : ℕ}
      → produce event p ≡ produced next
      → Replayed events next rest q (n + 1) m
      → Replayed (event ∷ events) p rest q n m
  Replayed-more event events p next n first later = record {
    done = event ∷ later.done;
    before = later.before;
    split = ap (λ es. event ∷ es) later.split;
    taken = Takes.one_more first later.taken;
    ending = elim later.ending [
      | inl (none_left, same, counted) ↦ inl (none_left, same, omega (arith, counted))
      | inr stopped ↦ inr stopped
    ];
  }

  replay_events_split :
      (events : List E) (p : P) (n : ℕ)
      → Replayed events p
          (replay_events produce events p n).1.0
          (replay_events produce events p n).0
          n
          (replay_events produce events p n).1.1
  unfolding replay_events
  replay_events_split [] p n = record {
    done = [];
    before = p;
    split = refl;
    taken = Takes.none_taken;
    ending = inl (refl, refl, omega arith);
  }
  replay_events_split (event ∷ events) p n = elim (Produced-cases (produce event p)) [
    | inl (next, first) ↦
        rw (replay_events, first)
          (Replayed-more event events p next n first (replay_events_split events next (n + 1)))
    | inr (q, first) ↦
        rw (replay_events, first)
          (record {
            done = [];
            before = p;
            split = refl;
            taken = Takes.none_taken;
            ending = inr (event, events, refl, first);
          })
  ]

module _ {E P : Type 0} (dump : E → Text) (validate : Text → Option E)
    (produce : E → P → Produced P)
    (validate_dump : (event : E) → validate (dump event) ≡ some event)
    (dump_nonempty : (event : E) → is_empty (dump event) ≡ false) where
  -- What a replay of a spool that holds `events` did, from the state that it left: `rest` is what the
  -- spool holds now, and the call returned the count of the others, or raised.
  pub record ReplayedTo (events : List E) (p : P) (after : (DiskSpool × P) × Result SpoolError ℕ)
      : Type 0 where
    pub done : List E
    pub rest : List E
    pub before : P
    pub split : done ++ rest ≡ events
    pub taken : Takes produce p done before
    pub left : read_events validate after.0.0 ≡ ok rest
    pub outcome :
        ((rest ≡ []) × (after.0.1 ≡ before) × (after.1 ≡ ok (length done)))
        ⊎ ((event : E) × (later : List E) × (rest ≡ event ∷ later)
            × (produce event before ≡ failed after.0.1)
            × (after.1 ≡ raise producer_failed))

  suffix-OneLine :
      (done rest events : List E)
      → done ++ rest ≡ events
      → All (λ e. OneLine (dump e)) events
      → All (λ e. OneLine (dump e)) rest
  suffix-OneLine [] rest events same h = subst (All (λ e. OneLine (dump e))) (sym same) h
  suffix-OneLine (d ∷ done) rest [] same h = absurd (ground arith)
  suffix-OneLine (d ∷ done) rest (e ∷ events) same (_, h) =
      suffix-OneLine done rest events (ground arith) h

  replay_read_sound :
      (events : List E) (spool : DiskSpool) (p : P)
      → All (λ e. OneLine (dump e)) events
      → ReplayedTo events p (replay_read dump validate produce events spool p)
  unfolding replay_read
  replay_read_sound events spool p plain =
      let loop = replay_events_split produce events p 0 in
      record {
        done = loop.done;
        rest = (replay_events produce events p 0).1.0;
        before = loop.before;
        split = loop.split;
        taken = loop.taken;
        left =
            read_payload dump validate validate_dump dump_nonempty _ _
              (suffix-OneLine loop.done _ events loop.split plain) refl;
        outcome = elim loop.ending [
          | inl (none_left, same, counted) ↦
              inl (none_left, same, rw none_left (ap ok (omega (arith, counted))))
          | inr (event, later, is_rest, stopped) ↦
              inr (event, later, is_rest, stopped, rw is_rest refl)
        ];
      }

  -- replay_to, on a spool that holds the texts of `events`, each on one line: the events before the
  -- first that the producer refuses have been produced, in order, and no other is lost: exactly the
  -- rest is read back from the spool. The count is returned if nothing is left, else the call raises.
  pub replay_to_exact :
      (events : List E) (spool : DiskSpool) (p : P)
      → All (λ e. OneLine (dump e)) events
      → content spool ≡ payload dump events
      → ReplayedTo events p (replay_to dump validate produce spool p)
  unfolding replay_to
  replay_to_exact events spool p plain same =
      rw (replay_to, read_content dump validate validate_dump dump_nonempty events spool plain same)
        (replay_read_sound events spool p plain)
