-- ===== src/Audit/Spool.antt =====
-- `DiskSpool` and `SpoolingAuditProducer`. `dump` is `model_dump_json` of an event, `validate` is
-- `model_validate_json`.
pub mod Replay
pub mod Deliver
pub mod Broken
use vyuu_mcp_gateway.Prelude.{
  ℕ, suc, ◌+◌, String, Bool, true, false, not, ◌&&◌, Option, none, some, List, [], ◌∷◌, ◌++◌, map,
  keep, ltb, Result, ok, raise, ◌>>=◌, if◌then◌else◌,
}
use vyuu_mcp_gateway.Audit.Lines.{Text, line_feed, utf8_length, splitlines, is_empty}

-- `AuditSpoolFullError`, the `ValidationError` of a line, and what a producer raises.
pub data SpoolError : Type 0 where
  audit_spool_full validation_error producer_failed : SpoolError

-- The file, if it exists, and the limit on its size.
pub record DiskSpool : Type 0 where
  pub file : Option Text
  pub max_bytes : Option ℕ

-- The text of the file; a missing file has none.
abbrev pub content : DiskSpool → Text
content spool = elim spool.file [ none ↦ [] | some text ↦ text ]

-- self.path.stat().st_size if self.path.exists() else 0
abbrev pub current_size : DiskSpool → ℕ
current_size spool = utf8_length (content spool)

abbrev pub over : ℕ → Option ℕ → Bool
over size none = false
over size (some limit) = ltb limit size

module _ {E : Type 0} (dump : E → Text) where
  abbrev pub serialized : E → Text
  serialized event = dump event ++ line_feed ∷ []

  unfoldable pub append : E → DiskSpool → Result SpoolError DiskSpool
  unfolding utf8_length
  append event spool =
      if over (current_size spool + utf8_length (serialized event)) spool.max_bytes
      then raise audit_spool_full
      else ok (record spool { file = some (content spool ++ serialized event) })

  -- "".join(...)
  unfoldable pub payload : List E → Text
  payload [] = []
  payload (event ∷ events) = serialized event ++ payload events

  abbrev pub _replace : List E → DiskSpool → DiskSpool
  _replace events spool = record spool { file = some (payload events) }

module _ {E : Type 0} (validate : Text → Option E) where
  abbrev pub or_invalid : Option E → Result SpoolError E
  or_invalid none = raise validation_error
  or_invalid (some event) = ok event

  unfoldable pub validated : List Text → Result SpoolError (List E)
  validated [] = ok []
  validated (line ∷ lines) =
      or_invalid (validate line) >>= λ event. validated lines >>= λ events. ok (event ∷ events)

  unfoldable pub read_events : DiskSpool → Result SpoolError (List E)
  unfolding splitlines validated
  read_events spool = elim spool.file [
    | none ↦ ok []
    | some text ↦ validated (keep (λ line. not (is_empty line)) (splitlines text))
  ]

-- What a call of the producer leaves it as, and whether the call raised.
pub data Produced (P : Type 0) : Type 0 where
  produced failed : P → Produced P

abbrev pub is_done : {E : Type 0} → List E → Bool
is_done [] = true
is_done (_ ∷ _) = false

module _ {E P : Type 0} (produce : E → P → Produced P) where
  -- The `for` of `replay_to`: the producer, the events from the first that failed on, and the count.
  unfoldable pub replay_events : List E → P → ℕ → P × (List E × ℕ)
  replay_events [] p replayed = (p, ([], replayed))
  replay_events (event ∷ events) p replayed = elim (produce event p) [
    | produced q ↦ replay_events events q (replayed + 1)
    | failed q ↦ (q, (event ∷ events, replayed))
  ]

module _ {E P : Type 0} (dump : E → Text) (validate : Text → Option E)
    (produce : E → P → Produced P) where
  unfoldable pub replay_read : List E → DiskSpool → P → (DiskSpool × P) × Result SpoolError ℕ
  unfolding payload replay_events
  replay_read events spool p =
      let out = replay_events produce events p 0 in
      (
        (_replace dump out.1.0 spool, out.0),
        if is_done out.1.0 then ok out.1.1 else raise producer_failed,
      )

  -- The spool and the producer afterwards, and the result.
  unfoldable pub replay_to : DiskSpool → P → (DiskSpool × P) × Result SpoolError ℕ
  unfolding read_events replay_read
  replay_to spool p = elim (read_events validate spool) [
    | raise e ↦ ((spool, p), raise e)
    | ok events ↦ replay_read events spool p
  ]

  -- `SpoolingAuditProducer.produce`
  unfoldable pub produce_or_spool :
      E → DiskSpool → P → (DiskSpool × P) × Result SpoolError (Unit {0})
  unfolding append
  produce_or_spool event spool p = elim (produce event p) [
    | produced q ↦ ((spool, q), ok tt)
    | failed q ↦ elim (append dump event spool) [
      | ok kept ↦ ((kept, q), ok tt)
      | raise e ↦ ((spool, q), raise e)
    ]
  ]
