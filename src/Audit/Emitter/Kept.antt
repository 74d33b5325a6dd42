-- ===== src/Audit/Emitter/Kept.antt =====
-- Where the events are that an `AsyncAuditEmitter` has accepted.
use vyuu_mcp_gateway.Prelude.{
  ℕ, ◌+◌, Bool, true, false, Option, none, some, List, [], ◌∷◌, ◌++◌, ok, ◌≡◌, refl, sym, ap, ◌∙◌,
  arith, ◌⊎◌, inl, inr, Bool-cases, Option-cases, if◌then◌else◌,
}
use vyuu_mcp_gateway.Audit.Lines.{Text}
use vyuu_mcp_gateway.Audit.Spool.{DiskSpool, content, payload, serialized, append}
use vyuu_mcp_gateway.Audit.Spool.Replay.{payload-append}
use vyuu_mcp_gateway.Audit.Emitter.{
  AsyncAuditEmitter, queue_full, take, worker_produced, emit_nowait, worker_failed, spooled_result,
}

-- A call of `emit_nowait`, and what the worker does.
pub data Step (E : Type 0) : Type 0 where
  emits : E → Step E
  takes produces fails : Step E

-- The emitter, the events that the producer has taken, and those that `emit_nowait` has accepted.
pub record History (E : Type 0) : Type 0 where
  pub emitter : AsyncAuditEmitter E
  pub received : List E
  pub accepted : List E

abbrev pub flying : {E : Type 0} → Option E → List E
flying none = []
flying (some event) = event ∷ []

abbrev noted : {E : Type 0} → Bool → E → List E → List E
noted true event events = events ++ event ∷ []
noted false event events = events

List-cases : {A : Type 0} (xs : List A) → (xs ≡ []) ⊎ ((y : A) × (ys : List A) × (xs ≡ y ∷ ys))
List-cases [] = inl refl
List-cases (y ∷ ys) = inr (y, ys, refl)

-- How many of the events pass the test.
abbrev pub tally : {E : Type 0} → (E → Bool) → List E → ℕ
tally p [] = 0
tally p (e ∷ es) = (if p e then 1 else 0) + tally p es

tally-append :
    {E : Type 0} (p : E → Bool) (xs ys : List E) → tally p (xs ++ ys) ≡ tally p xs + tally p ys
tally-append p [] ys = omega arith
tally-append p (x ∷ xs) ys = omega (arith, tally-append p xs ys)

module _ {E : Type 0} (dump : E → Text) where
  unfoldable pub step : History E → Step E → History E
  step h (emits event) =
      let out = emit_nowait dump event h.emitter in
      record h { emitter = out.0; accepted = noted out.1.accepted event h.accepted }
  step h takes = record h { emitter = take h.emitter }
  step h produces = record h {
    emitter = worker_produced h.emitter;
    received = h.received ++ flying h.emitter.in_flight;
  }
  step h fails = record h { emitter = worker_failed dump h.emitter }

  unfoldable pub run : History E → List (Step E) → History E
  unfolding step
  run h [] = h
  run h (s ∷ steps) = run (step h s) steps

  -- The spool has no limit and holds the texts of `written`. Whatever one counts by, the accepted
  -- events are those that are received, written, in flight and in the queue.
  pub record Kept (h : History E) : Type 0 where
    pub spool : DiskSpool
    pub written : List E
    pub has_spool : h.emitter.overflow_spool ≡ some spool
    pub unlimited : spool.max_bytes ≡ none
    pub holds : content spool ≡ payload dump written
    pub counted :
        (p : E → Bool)
        → tally p h.accepted
          ≡ tally p h.received
            + tally p written
            + tally p (flying h.emitter.in_flight)
            + tally p h.emitter.queue

  abbrev grown : E → DiskSpool → DiskSpool
  grown event spool = record spool { file = some (content spool ++ serialized dump event) }

  append-unlimited :
      (event : E) (spool : DiskSpool)
      → spool.max_bytes ≡ none
      → append dump event spool ≡ ok (grown event spool)
  unfolding append
  append-unlimited event spool free = rw free refl

  emit_nowait-full :
      (event : E) (a : AsyncAuditEmitter E) (spool : DiskSpool)
      → queue_full a ≡ true
      → a.overflow_spool ≡ some spool
      → spool.max_bytes ≡ none
      → emit_nowait dump event a ≡ (
        record a { overflow_spool = some (grown event spool); degraded = true },
        spooled_result true,
      )
  unfolding emit_nowait
  emit_nowait-full event a spool full has free =
      rw full (rw has (rw (append-unlimited event spool free) refl))

  emits-Kept : (h : History E) (event : E) → Kept h → Kept (step h (emits event))
  unfolding step emit_nowait
  emits-Kept h event k = elim (Bool-cases (queue_full h.emitter)) [
    | inl full ↦
        rw (step, emit_nowait-full event h.emitter k.spool full k.has_spool k.unlimited)
          (record {
            spool = grown event k.spool;
            written = k.written ++ event ∷ [];
            has_spool = refl;
            unlimited = k.unlimited;
            holds =
                ap (λ t. t ++ serialized dump event) k.holds
                ∙ sym (payload-append dump k.written event);
            counted = λ p. omega (
              arith,
              k.counted p,
              tally-append p h.accepted (event ∷ []),
              tally-append p k.written (event ∷ []),
            );
          })
    | inr room ↦
        rw (step, emit_nowait, room)
          (record {
            spool = k.spool;
            written = k.written;
            has_spool = k.has_spool;
            unlimited = k.unlimited;
            holds = k.holds;
            counted = λ p. omega (
              arith,
              k.counted p,
              tally-append p h.accepted (event ∷ []),
              tally-append p h.emitter.queue (event ∷ []),
            );
          })
  ]

  takes-Kept : (h : History E) → Kept h → Kept (step h takes)
  unfolding step take
  takes-Kept h k = elim (Option-cases h.emitter.in_flight) [
    | inr (event, busy) ↦ rw (step, take, busy) k
    | inl idle ↦ elim (List-cases h.emitter.queue) [
      | inl empty ↦ rw (step, take, idle, empty) k
      | inr (event, events, waiting) ↦
          rw (step, take, idle, waiting)
            (record {
              spool = k.spool;
              written = k.written;
              has_spool = k.has_spool;
              unlimited = k.unlimited;
              holds = k.holds;
              counted = λ p. omega (arith, rw (idle, waiting) at k.counted p);
            })
    ]
  ]

  produces-Kept : (h : History E) → Kept h → Kept (step h produces)
  unfolding step worker_produced
  produces-Kept h k = record {
    spool = k.spool;
    written = k.written;
    has_spool = k.has_spool;
    unlimited = k.unlimited;
    holds = k.holds;
    counted =
        λ p. omega (arith, k.counted p, tally-append p h.received (flying h.emitter.in_flight));
  }

  fails-Kept : (h : History E) → Kept h → Kept (step h fails)
  unfolding step worker_failed
  fails-Kept h k = elim (Option-cases h.emitter.in_flight) [
    | inl idle ↦ rw (step, worker_failed, idle) k
    | inr (event, busy) ↦
        rw (step, worker_failed, busy)
          (record {
            spool = grown event k.spool;
            written = k.written ++ event ∷ [];
            has_spool = rw k.has_spool (rw (append-unlimited event k.spool k.unlimited) refl);
            unlimited = k.unlimited;
            holds =
                ap (λ t. t ++ serialized dump event) k.holds
                ∙ sym (payload-append dump k.written event);
            counted =
                λ p. omega (arith, rw busy at k.counted p, tally-append p k.written (event ∷ []));
          })
  ]

  step-Kept : (h : History E) (s : Step E) → Kept h → Kept (step h s)
  step-Kept h (emits event) k = emits-Kept h event k
  step-Kept h takes k = takes-Kept h k
  step-Kept h produces k = produces-Kept h k
  step-Kept h fails k = fails-Kept h k

  -- With a spool without a limit no accepted event is lost or doubled, however the calls of
  -- emit_nowait and the turns of the worker interleave and whichever calls of the producer fail.
  pub run-Kept : (h : History E) (steps : List (Step E)) → Kept h → Kept (run h steps)
  unfolding run
  run-Kept h [] k = k
  run-Kept h (s ∷ steps) k = run-Kept (step h s) steps (step-Kept h s k)
