-- ===== src/ToolCalls/Emitter.antt =====
-- What strict mode of src/vyuu_gateway/tool_calls/lifecycle.py makes of an `AsyncAuditEmitter`.
use vyuu_mcp_gateway.Prelude.{◌≡◌, refl, ap, inl, inr, false, List, [], ◌∷◌, arith}
use vyuu_mcp_gateway.Audit.Lines.{Text}
use vyuu_mcp_gateway.Audit.Emitter.{AsyncAuditEmitter, queue_full, emit_nowait}
use vyuu_mcp_gateway.ToolCalls.{
  EmitResult, audit_unavailable, strict, not_called, ToolCallRequest, AuditEvent, Action,
  Collaborators,
}
use vyuu_mcp_gateway.ToolCalls.Lifecycle.{handle_tool_call}
use vyuu_mcp_gateway.ToolCalls.Gates.{call_of, refused, stopped, reached, without_client}
use vyuu_mcp_gateway.ToolCalls.Gates.Passed.{handle_tool_call-End}
use vyuu_mcp_gateway.ToolCalls.Audited.{call_count, call_count-graph_event}

not_durable :
    {E : Type 0} (dump : E → Text) (e : E) (a : AsyncAuditEmitter E)
    → queue_full a ≡ false
    → (emit_nowait dump e a).1.durable ≡ false
unfolding emit_nowait
not_durable dump e a room = rw room refl

-- In strict mode, with an `AsyncAuditEmitter` whose queue has room, every tool call that reaches an upstream
-- is answered with `audit_unavailable`, after the upstream has been called.
pub strict_async_fails_after_call :
    {A C R : Type 0} (w : Collaborators A C R) (request : ToolCallRequest A C R)
    (dump : AuditEvent A C R → Text)
    (emitter : List (Action A C R) → AsyncAuditEmitter (AuditEvent A C R))
    → w.audit_failure_mode ≡ strict
    → ((actions : List (Action A C R)) (e : AuditEvent A C R)
        → w.emit_nowait actions e ≡ (emit_nowait dump e (emitter actions)).1)
    → ((actions : List (Action A C R)) → queue_full (emitter actions) ≡ false)
    → call_count (handle_tool_call w request).0 ≡ 1
    → (handle_tool_call w request).1.status ≡ audit_unavailable
strict_async_fails_after_call w request dump emitter mode answers room once =
    elim (handle_tool_call-End w request) [
      | refused f s p same _ _ _ ↦
          absurd (omega (arith, call_count-graph_event w s p not_called, rw same at once))
      | stopped _ _ status _ ↦ status
      | without_client p e error same _ _ _ ↦ absurd (omega (arith, rw same at once))
      | reached p e _ _ _ durable ↦ elim (durable mode) [
        | inl unavailable ↦ unavailable
        | inr (_, kept) ↦
            let so_far = call_of w request p.cleared ∷ [] in
            absurd (
              ground (
                arith,
                kept,
                ap (λ (r : EmitResult). r.durable) (answers so_far e),
                not_durable dump e (emitter so_far) (room so_far),
              ))
      ]
    ]
