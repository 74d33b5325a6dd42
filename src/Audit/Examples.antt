-- ===== src/Audit/Examples.antt =====
-- A spool of events that are texts of letters: the JSON text of an event is the event in quotes.
use vyuu_mcp_gateway.Prelude.{
  ℕ, ◌-◌, true, false, Option, none, some, List, [], ◌∷◌, ◌++◌, All, ◌==◌, raise, ◌≡◌, refl,
  if◌then◌else◌,
}
use vyuu_mcp_gateway.Audit.Lines.{Text, OneLine, is_empty, is_boundary}
use vyuu_mcp_gateway.Audit.Spool.{
  DiskSpool, validation_error, payload, Produced, produced, failed, replay_to,
}
use vyuu_mcp_gateway.Audit.Spool.Deliver.{ReplayedTo, replay_to_exact}
use vyuu_mcp_gateway.Audit.Spool.Broken.{broken_spool_never_replays}
use vyuu_mcp_gateway.Audit.Emitter.{disk_emit_nowait, disk_can_durably_accept_now}
use vyuu_mcp_gateway.Audit.Emitter.Kept.{History, Step, emits, takes, fails, Kept, run, run-Kept}

abbrev dump : Text → Text
dump e = 34 ∷ e ++ 34 ∷ []

-- The event of a text that ends in a quote.
abbrev body : Text → Option Text
body [] = none
body (c ∷ []) = if c == 34 then some [] else none
body (c ∷ (d ∷ cs)) = elim (body (d ∷ cs)) [ none ↦ none | some e ↦ some (c ∷ e) ]

abbrev validate : Text → Option Text
validate [] = none
validate (c ∷ cs) = if c == 34 then body cs else none

body-quoted : (e : Text) → body (e ++ 34 ∷ []) ≡ some e
body-quoted [] = refl
body-quoted (c ∷ []) = refl
body-quoted (c ∷ (d ∷ cs)) = rw (body-quoted (d ∷ cs)) refl

validate_dump : (e : Text) → validate (dump e) ≡ some e
validate_dump e = body-quoted e

dump_nonempty : (e : Text) → is_empty (dump e) ≡ false
dump_nonempty e = refl

-- A producer that takes so many events and then fails.
abbrev produce : Text → ℕ → Produced ℕ
produce e left = if left == 0 then failed 0 else produced (left - 1)

abbrev two : List Text
two = (65 ∷ []) ∷ (66 ∷ []) ∷ []

abbrev holding : List Text → DiskSpool
holding events = record { file = some (payload dump events); max_bytes = some 100 }

two-OneLine : All (λ e. OneLine (dump e)) two
unfolding is_boundary
two-OneLine = ((refl, (refl, (refl, tt))), ((refl, (refl, (refl, tt))), tt))

replay_to_exact_example :
    ReplayedTo dump validate produce validate_dump dump_nonempty two 1
      (replay_to dump validate produce (holding two) 1)
replay_to_exact_example =
    replay_to_exact dump validate produce validate_dump dump_nonempty two (holding two) 1
      two-OneLine refl

-- An event with U+2028, the line separator.
abbrev separated : Text
separated = 65 ∷ 8232 ∷ 66 ∷ []

broken_spool_never_replays_example :
    replay_to dump validate produce (holding (separated ∷ [])) 9
    ≡ ((holding (separated ∷ []), 9), raise validation_error)
unfolding is_boundary
broken_spool_never_replays_example =
    broken_spool_never_replays dump validate produce validate_dump dump_nonempty [] separated
      (34 ∷ 65 ∷ []) (66 ∷ 34 ∷ []) 8232 refl (refl, (refl, tt)) refl [] (holding (separated ∷ []))
      9 tt refl refl refl

abbrev fresh : History Text
fresh = record {
  emitter = record {
    queue = [];
    in_flight = none;
    max_queue_size = 1;
    overflow_spool = some (record { file = none; max_bytes = none });
    degraded = false;
  };
  received = [];
  accepted = [];
}

fresh-Kept : Kept dump fresh
unfolding payload
fresh-Kept = record {
  spool = record { file = none; max_bytes = none };
  written = [];
  has_spool = refl;
  unlimited = refl;
  holds = refl;
  counted = λ p. refl;
}

-- Two events, of which the second overflows, and a failure of the producer.
abbrev turns : List (Step Text)
turns = emits (65 ∷ []) ∷ emits (66 ∷ []) ∷ takes ∷ fails ∷ []

run-Kept_example : Kept dump (run dump fresh turns)
run-Kept_example = run-Kept dump fresh turns fresh-Kept

-- The emitter says that it can accept an event durably, and refuses the next one.
abbrev nearly_full : DiskSpool
nearly_full = record { file = some (65 ∷ []); max_bytes = some 2 }

says_yes : disk_can_durably_accept_now nearly_full ≡ true
unfolding disk_can_durably_accept_now
says_yes = refl

refuses : (disk_emit_nowait dump (66 ∷ []) nearly_full).1.accepted ≡ false
unfolding disk_emit_nowait
refuses = refl
