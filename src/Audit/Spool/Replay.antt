-- ===== src/Audit/Spool/Replay.antt =====
-- What the spool gives back of the events that were appended to it.
use mathlib.Core.List.{append_assoc, append-nil}
use vyuu_mcp_gateway.Prelude.{
  ℕ, false, not, Option, none, some, List, [], ◌∷◌, ◌++◌, map, keep, All, Result, ok, raise, ◌>>=◌,
  bind-ok, ◌≡◌, refl, sym, ap, ◌∙◌, arith, Option-cases, inl, inr,
}
use vyuu_mcp_gateway.Audit.Lines.{Text, line_feed, splitlines, splitlines-line, is_empty, OneLine}
use vyuu_mcp_gateway.Audit.Spool.{
  SpoolError, DiskSpool, content, serialized, append, payload, validated, read_events,
}

-- `append` of each event in turn
abbrev pub append_each :
    {E : Type 0} → (E → Text) → List E → DiskSpool → Result SpoolError DiskSpool
append_each dump [] spool = ok spool
append_each dump (event ∷ events) spool = append dump event spool >>= append_each dump events

pub payload-append :
    {E : Type 0} (dump : E → Text) (events : List E) (event : E)
    → payload dump (events ++ event ∷ []) ≡ payload dump events ++ serialized dump event
unfolding payload
payload-append dump [] event = append-nil (serialized dump event)
payload-append dump (x ∷ events) event =
    ap (λ t. serialized dump x ++ t) (payload-append dump events event)
    ∙ sym (append_assoc (serialized dump x) (payload dump events) (serialized dump event))

pub append-content :
    {E : Type 0} (dump : E → Text) (event : E) (spool : DiskSpool) {spool' : DiskSpool}
    → append dump event spool ≡ ok spool'
    → (spool'.file ≡ some (content spool ++ serialized dump event))
      × (spool'.max_bytes ≡ spool.max_bytes)
unfolding append
append-content dump event spool h = ground arith

ok_inj : {A E : Type 0} {x y : A} → ◌≡◌ {A = Result E A} (ok x) (ok y) → x ≡ y
ok_inj {A} {E} {x} h = ap inner h
  where
    inner : Result E A → A
    inner (ok a) = a
    inner (raise e) = x

-- `validate` reads back what `dump` writes, and a dump is not empty.
module _ {E : Type 0} (dump : E → Text) (validate : Text → Option E)
    (validate_dump : (event : E) → validate (dump event) ≡ some event)
    (dump_nonempty : (event : E) → is_empty (dump event) ≡ false) where
  splitlines-payload :
      (events : List E)
      → All (λ e. OneLine (dump e)) events
      → splitlines (payload dump events) ≡ map dump events
  unfolding payload splitlines
  splitlines-payload [] h = refl
  splitlines-payload (event ∷ events) (plain, h) =
      ap splitlines (append_assoc (dump event) (line_feed ∷ []) (payload dump events))
      ∙ splitlines-line (dump event) (payload dump events) plain
      ∙ ap (λ ls. dump event ∷ ls) (splitlines-payload events h)

  validated-map :
      (events : List E)
      → validated validate (keep (λ line. not (is_empty line)) (map dump events)) ≡ ok events
  unfolding validated
  validated-map [] = refl
  validated-map (event ∷ events) =
      rw (dump_nonempty event) (rw (validate_dump event) (rw (validated-map events) refl))

  pub read_payload :
      (events : List E) (spool : DiskSpool)
      → All (λ e. OneLine (dump e)) events
      → spool.file ≡ some (payload dump events)
      → read_events validate spool ≡ ok events
  unfolding read_events
  read_payload events spool h same =
      rw same (rw (splitlines-payload events h) (validated-map events))

  append_each-content :
      (before events : List E) (spool : DiskSpool) {spool' : DiskSpool}
      → content spool ≡ payload dump before
      → append_each dump events spool ≡ ok spool'
      → content spool' ≡ payload dump (before ++ events)
  append_each-content before [] spool same h =
      let end : spool ≡ _ = ok_inj h in
      ap content (sym end) ∙ same ∙ ap (payload dump) (sym (append-nil before))
  append_each-content before (event ∷ events) spool same h =
      let (next, kept, rest) = bind-ok (append dump event spool) (append_each dump events) h in
      let (file, _) = append-content dump event spool kept in
      append_each-content (before ++ event ∷ []) events next (grown next file) rest
      ∙ ap (payload dump) (append_assoc before (event ∷ []) events)
    where
      grown :
          (next : DiskSpool)
          → next.file ≡ some (content spool ++ serialized dump event)
          → content next ≡ payload dump (before ++ event ∷ [])
      grown next file =
          rw file
            (ap (λ t. t ++ serialized dump event) same ∙ sym (payload-append dump before event))

  pub read_content :
      (events : List E) (spool : DiskSpool)
      → All (λ e. OneLine (dump e)) events
      → content spool ≡ payload dump events
      → read_events validate spool ≡ ok events
  unfolding read_events splitlines
  read_content events spool h same = elim (Option-cases spool.file) [
    | inl missing ↦ rw missing (
        ap ok (
          sym (
            no_events events
              (sym (splitlines-payload events h) ∙ ap splitlines (sym (rw missing at same))))))
    | inr (text, found) ↦ read_payload events spool h (found ∙ ap some (rw found at same))
  ]
    where
      no_events : (xs : List E) → map dump xs ≡ [] → xs ≡ []
      no_events [] e = refl
      no_events (x ∷ xs) e = absurd (ground arith)

  -- What was appended to an empty spool, event by event, is read back in order.
  pub spool_round_trip :
      (events : List E) (max_bytes : Option ℕ) {spool : DiskSpool}
      → All (λ e. OneLine (dump e)) events
      → append_each dump events (record { file = none; max_bytes = max_bytes }) ≡ ok spool
      → read_events validate spool ≡ ok events
  unfolding payload
  spool_round_trip events max_bytes {spool} plain h =
      read_content events spool plain (append_each-content [] events _ empty h)
    where
      empty : ◌≡◌ {A = Text} [] (payload dump [])
      empty = refl
