-- ===== src/Audit/Spool/Broken.antt =====
-- A spool with an event whose JSON text has a line boundary in it.
use mathlib.Core.List.{append_assoc}
use vyuu_mcp_gateway.Prelude.{
  ℕ, true, false, not, Option, none, some, List, [], ◌∷◌, ◌++◌, map, keep, All, raise, ◌≡◌, refl,
  ap, ◌∙◌, ◌==◌,
}
use vyuu_mcp_gateway.Audit.Lines.{
  Text, line_feed, splitlines, splitlines-line, splitlines-boundary, is_empty, OneLine, is_boundary,
  lines_from,
}
use vyuu_mcp_gateway.Audit.Spool.{
  validation_error, DiskSpool, payload, validated, read_events, Produced, replay_to,
}

module _ {E P : Type 0} (dump : E → Text) (validate : Text → Option E)
    (produce : E → P → Produced P)
    (validate_dump : (event : E) → validate (dump event) ≡ some event)
    (dump_nonempty : (event : E) → is_empty (dump event) ≡ false) where
  validated_poisoned :
      (before : List E) (line : Text) (lines : List Text)
      → is_empty line ≡ false
      → validate line ≡ none
      → validated validate (keep (λ l. not (is_empty l)) (map dump before ++ line ∷ lines))
        ≡ raise validation_error
  unfolding validated
  validated_poisoned [] line lines some_text bad = rw some_text (rw bad refl)
  validated_poisoned (event ∷ before) line lines some_text bad =
      rw (dump_nonempty event)
        (rw (validate_dump event) (rw (validated_poisoned before line lines some_text bad) refl))

  module _ (after : List E) (event : E) (line rest : Text) (c : ℕ)
      (broken : dump event ≡ line ++ c ∷ rest) (plain : OneLine line)
      (ends : is_boundary c ≡ true) where
    abbrev tail : Text
    tail = rest ++ line_feed ∷ payload dump after

    payload-broken : payload dump (event ∷ after) ≡ line ++ c ∷ tail
    unfolding payload
    payload-broken =
        ap (λ t. (t ++ line_feed ∷ []) ++ payload dump after) broken
        ∙ ap (λ t. t ++ payload dump after) (append_assoc line (c ∷ rest) (line_feed ∷ []))
        ∙ append_assoc line (c ∷ (rest ++ line_feed ∷ [])) (payload dump after)
        ∙ ap (λ t. line ++ c ∷ t) (append_assoc rest (line_feed ∷ []) (payload dump after))

    splitlines-broken :
        (before : List E)
        → All (λ e. OneLine (dump e)) before
        → splitlines (payload dump (before ++ event ∷ after))
          ≡ map dump before ++ line ∷ lines_from (c == 13) [] tail
    unfolding payload
    splitlines-broken [] h =
        ap splitlines payload-broken ∙ splitlines-boundary line c tail plain ends
    splitlines-broken (e ∷ before) (one, h) =
        ap splitlines
          (append_assoc (dump e) (line_feed ∷ []) (payload dump (before ++ event ∷ after)))
        ∙ splitlines-line (dump e) (payload dump (before ++ event ∷ after)) one
        ∙ ap (λ ls. dump e ∷ ls) (splitlines-broken before h)

    -- If an event's JSON text has a character at which `splitlines` ends a line, and what stands
    -- before it is no event, then replay_to raises, produces nothing and changes nothing, whatever
    -- stands before and after the event in the spool.
    pub broken_spool_never_replays :
        (before : List E) (spool : DiskSpool) (p : P)
        → All (λ e. OneLine (dump e)) before
        → is_empty line ≡ false
        → validate line ≡ none
        → spool.file ≡ some (payload dump (before ++ event ∷ after))
        → replay_to dump validate produce spool p ≡ ((spool, p), raise validation_error)
    unfolding replay_to read_events
    broken_spool_never_replays before spool p h some_text bad file = rw (replay_to, read_fails) refl
      where
        read_fails : read_events validate spool ≡ raise validation_error
        read_fails = rw file (
            rw (splitlines-broken before h)
              (validated_poisoned before line (lines_from (c == 13) [] tail) some_text bad))
