-- ===== src/Audit/Emitter.antt =====
-- `AsyncAuditEmitter` with its worker, and `DiskSpoolAuditEmitter`. The turns of the worker and the
-- calls of `emit_nowait` interleave, so they are steps.
pub mod Kept
use vyuu_mcp_gateway.Prelude.{
  ℕ, ◌+◌, Bool, true, false, not, ◌&&◌, Option, none, some, is_some, List, [], ◌∷◌, ◌++◌, length,
  leb, ltb, ◌==◌, Result, ok, raise, if◌then◌else◌,
}
use vyuu_mcp_gateway.ToolCalls.{EmitResult}
use vyuu_mcp_gateway.Audit.Lines.{Text, utf8_length}
use vyuu_mcp_gateway.Audit.Spool.{SpoolError, DiskSpool, append, current_size}

-- `in_flight` is the event that the worker has taken from the queue and not done with.
pub record AsyncAuditEmitter (E : Type 0) : Type 0 where
  pub queue : List E
  pub in_flight : Option E
  pub max_queue_size : ℕ
  pub overflow_spool : Option DiskSpool
  pub degraded : Bool

-- EmitResult(accepted=True, degraded=degraded)
abbrev pub queued : Bool → EmitResult
queued degraded = record {
  accepted = true;
  spooled = false;
  durable = false;
  degraded = degraded;
  reason = none;
}

abbrev pub spooled_result : Bool → EmitResult
spooled_result degraded = record {
  accepted = true;
  spooled = true;
  durable = true;
  degraded = degraded;
  reason = none;
}

abbrev pub refused : EmitResult
refused = record {
  accepted = false;
  spooled = false;
  durable = false;
  degraded = true;
  reason = some "AuditSpoolFullError";
}

abbrev pub dropped : EmitResult
dropped = record {
  accepted = false;
  spooled = false;
  durable = false;
  degraded = true;
  reason = some "queue_full";
}

module _ {E : Type 0} where
  -- `asyncio.Queue.full`; a queue of size 0 is unbounded.
  abbrev pub queue_full : AsyncAuditEmitter E → Bool
  queue_full a = not (a.max_queue_size == 0) && leb a.max_queue_size (length a.queue)

  unfoldable pub can_durably_accept_now : AsyncAuditEmitter E → Bool
  can_durably_accept_now a = is_some a.overflow_spool

  -- The worker's `get`: it takes an event if it has none.
  unfoldable pub take : AsyncAuditEmitter E → AsyncAuditEmitter E
  take a = elim a.in_flight [
    | some _ ↦ a
    | none ↦ elim a.queue [
      | [] ↦ a
      | event ∷ events ↦ record a { queue = events; in_flight = some event }
    ]
  ]

  -- `produce` has returned.
  unfoldable pub worker_produced : AsyncAuditEmitter E → AsyncAuditEmitter E
  worker_produced a = record a { in_flight = none; degraded = false }

module _ {E : Type 0} (dump : E → Text) where
  -- What is left of an emitter after `append`, where a full spool keeps what it has.
  abbrev pub kept_by : DiskSpool → Result SpoolError DiskSpool → DiskSpool
  kept_by spool (ok spool') = spool'
  kept_by spool (raise e) = spool

  abbrev pub append_result : Result SpoolError DiskSpool → EmitResult
  append_result (ok spool) = spooled_result true
  append_result (raise e) = refused

  abbrev pub overflow :
      E → AsyncAuditEmitter E → Option DiskSpool → AsyncAuditEmitter E × EmitResult
  overflow event a none = (record a { degraded = true }, dropped)
  overflow event a (some spool) =
      let out = append dump event spool in
      (record a { overflow_spool = some (kept_by spool out); degraded = true }, append_result out)

  unfoldable pub emit_nowait : E → AsyncAuditEmitter E → AsyncAuditEmitter E × EmitResult
  unfolding append
  emit_nowait event a =
      if queue_full a
      then overflow event a a.overflow_spool
      else (record a { queue = a.queue ++ event ∷ [] }, queued a.degraded)

  -- `produce` has raised.
  abbrev pub spool_failed : E → Option DiskSpool → Option DiskSpool
  spool_failed event none = none
  spool_failed event (some spool) = some (kept_by spool (append dump event spool))

  unfoldable pub worker_failed : AsyncAuditEmitter E → AsyncAuditEmitter E
  unfolding append
  worker_failed a = elim a.in_flight [
    | none ↦ a
    | some event ↦ record a {
      in_flight = none;
      overflow_spool = spool_failed event a.overflow_spool;
      degraded = true;
    }
  ]

-- `DiskSpoolAuditEmitter`
module _ {E : Type 0} (dump : E → Text) where
  abbrev pub disk_result : DiskSpool → Result SpoolError DiskSpool → DiskSpool × EmitResult
  disk_result spool (ok spool') = (spool', spooled_result false)
  disk_result spool (raise e) = (spool, refused)

  unfoldable pub disk_emit_nowait : E → DiskSpool → DiskSpool × EmitResult
  unfolding append
  disk_emit_nowait event spool = disk_result spool (append dump event spool)

abbrev pub below : ℕ → Option ℕ → Bool
below size none = true
below size (some limit) = ltb size limit

unfoldable pub disk_can_durably_accept_now : DiskSpool → Bool
unfolding utf8_length
disk_can_durably_accept_now spool = below (current_size spool) spool.max_bytes
