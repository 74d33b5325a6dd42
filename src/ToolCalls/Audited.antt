-- ===== src/ToolCalls/Audited.antt =====
-- What the audit trail says of a tool call, and what a call that reached the upstream had passed.
use vyuu_mcp_gateway.Prelude.{
  ℕ, ◌+◌, ◌<◌, ◌≡◌, ◌⊎◌, refl, ap, sym, ◌∙◌, inl, inr, String, Option, none, some, List, [], ◌∷◌,
  Memᴰ, head_or_tail, arith,
}
use vyuu_mcp_gateway.Access.{Principal}
use vyuu_mcp_gateway.ToolCalls.{
  UpstreamError, GatewaySession, UpstreamStatus, not_called, ToolCallRequest, AuditEvent, Action,
  called, audited, graphed, Collaborators,
}
use vyuu_mcp_gateway.ToolCalls.Lifecycle.{graph_event, handle_tool_call}
use vyuu_mcp_gateway.ToolCalls.Gates.{
  Permitted, call_of, status_of, refused, stopped, reached, without_client,
}
use vyuu_mcp_gateway.ToolCalls.Gates.Passed.{handle_tool_call-End}

module _ {A C R : Type 0} where
  -- How many upstream calls, and how many audit events, there are among these actions.
  abbrev pub call_count : List (Action A C R) → ℕ
  call_count [] = 0
  call_count (called server tool arguments uid ∷ actions) = 1 + call_count actions
  call_count (audited e ∷ actions) = call_count actions
  call_count (graphed status ∷ actions) = call_count actions

  abbrev pub audit_count : List (Action A C R) → ℕ
  audit_count [] = 0
  audit_count (called server tool arguments uid ∷ actions) = audit_count actions
  audit_count (audited e ∷ actions) = 1 + audit_count actions
  audit_count (graphed status ∷ actions) = audit_count actions

  no_member : {a : Action A C R} → Memᴰ a [] → ⊥
  no_member m = elim m [ ]

module _ {A C R : Type 0} (w : Collaborators A C R) where
  pub call_count-graph_event :
      (s : Option GatewaySession) (p : Option Principal) (status : UpstreamStatus)
      → call_count (graph_event w s p status) ≡ 0
  call_count-graph_event none p status = refl
  call_count-graph_event (some s) none status = refl
  call_count-graph_event (some s) (some p) status = refl

  audit_count-graph_event :
      (s : Option GatewaySession) (p : Option Principal) (status : UpstreamStatus)
      → audit_count (graph_event w s p status) ≡ 0
  audit_count-graph_event none p status = refl
  audit_count-graph_event (some s) none status = refl
  audit_count-graph_event (some s) (some p) status = refl

  -- A call or an audit event is counted.
  called-counted :
      {server : ℕ} {tool : String} {arguments : A} {uid : Option ℕ} (actions : List (Action A C R))
      → Memᴰ (called server tool arguments uid) actions
      → 0 < call_count actions
  called-counted [] m = absurd (no_member m)
  called-counted (called s t a u ∷ actions) m = omega arith
  called-counted (audited e ∷ actions) m = elim (head_or_tail m) [
    | inl e ↦ absurd (ground arith)
    | inr later ↦ called-counted actions later
  ]
  called-counted (graphed status ∷ actions) m = elim (head_or_tail m) [
    | inl e ↦ absurd (ground arith)
    | inr later ↦ called-counted actions later
  ]

  audited-counted :
      {e : AuditEvent A C R} (actions : List (Action A C R))
      → Memᴰ (audited e) actions
      → 0 < audit_count actions
  audited-counted [] m = absurd (no_member m)
  audited-counted (audited e ∷ actions) m = omega arith
  audited-counted (called s t a u ∷ actions) m = elim (head_or_tail m) [
    | inl e ↦ absurd (ground arith)
    | inr later ↦ audited-counted actions later
  ]
  audited-counted (graphed status ∷ actions) m = elim (head_or_tail m) [
    | inl e ↦ absurd (ground arith)
    | inr later ↦ audited-counted actions later
  ]

  same_call :
      {server s : ℕ} {tool t : String} {arguments a : A} {uid u : Option ℕ}
      (rest : List (Action A C R))
      → call_count rest ≡ 0
      → Memᴰ (called server tool arguments uid) (called s t a u ∷ rest)
      → (server ≡ s) × (tool ≡ t) × (arguments ≡ a) × (uid ≡ u)
  same_call rest none_left m = elim (head_or_tail m) [
    | inl e ↦ (ground arith, ground arith, ground arith, ground arith)
    | inr later ↦ absurd (omega (arith, called-counted rest later))
  ]

  same_event :
      {e f : AuditEvent A C R} (rest : List (Action A C R))
      → audit_count rest ≡ 0
      → Memᴰ (audited e) (audited f ∷ rest)
      → e ≡ f
  same_event rest none_left m = elim (head_or_tail m) [
    | inl e ↦ ground arith
    | inr later ↦ absurd (omega (arith, audited-counted rest later))
  ]

  reached_event :
      (request : ToolCallRequest A C R) (p : Permitted w request) {e f : AuditEvent A C R}
      → Memᴰ (audited e) (call_of w request p.cleared ∷ audited f ∷ graphed f.upstream_status ∷ [])
      → e ≡ f
  reached_event request p m = elim (head_or_tail m) [
    | inl e ↦ absurd (ground arith)
    | inr later ↦ same_event _ refl later
  ]

-- If a tool call reaches an upstream, then the session exists in the request's tenant, the credentials are
-- valid, the virtual server exposes a tool with the requested name, the principal has the scope that the
-- tool needs, an elevation is held if the tool is gated, the arguments fit the schema, the policy allowed
-- the call and, in strict mode, the audit emitter can queue durably; and the call is to that tool's
-- server, by that tool's upstream name, with the request's arguments and the principal's user id.
pub upstream_call_is_permitted :
    {A C R : Type 0} (w : Collaborators A C R) (request : ToolCallRequest A C R) (server : ℕ)
    (tool : String) (arguments : A) (uid : Option ℕ)
    → Memᴰ (called server tool arguments uid) (handle_tool_call w request).0
    → (p : Permitted w request) × (server ≡ p.cleared.tool.upstream_server_id)
      × (tool ≡ p.cleared.tool.upstream_tool_name)
      × (arguments ≡ request.arguments)
      × (uid ≡ w.parse_uuid p.cleared.principal.id)
upstream_call_is_permitted w request server tool arguments uid m =
    elim (handle_tool_call-End w request) [
      | refused e s p same _ _ _ ↦ absurd (
          omega (arith, called-counted w _ (rw same at m), call_count-graph_event w s p not_called))
      | stopped same _ _ _ ↦ absurd (no_member (rw same at m))
      | without_client p e error same _ _ _ ↦
          absurd (omega (arith, called-counted w _ (rw same at m)))
      | reached p e same _ _ _ ↦
          let (a, b, c, d) = same_call w _ refl (rw same at m) in (p, a, b, c, d)
    ]

-- If an audit event of a tool call says that the upstream was not called, then no client's `call_tool` was
-- called. If none was called, then the event says so, unless the call had passed every gate and
-- `get_client` raised: then the event says ERROR, or TIMEOUT if what it raised is a TimeoutError.
pub audit_tells_upstream :
    {A C R : Type 0} (w : Collaborators A C R) (request : ToolCallRequest A C R)
    (e : AuditEvent A C R)
    → Memᴰ (audited e) (handle_tool_call w request).0
    → (e.upstream_status ≡ not_called → call_count (handle_tool_call w request).0 ≡ 0)
      × (call_count (handle_tool_call w request).0 ≡ 0
          → (e.upstream_status ≡ not_called)
            ⊎ ((p : Permitted w request) × (error : UpstreamError) × (w.get_client
                    p.cleared.session.tenant_id p.cleared.tool.upstream_server_id
                  ≡ some error)
                × (e.upstream_status ≡ status_of w request error)))
audit_tells_upstream w request e m = elim (handle_tool_call-End w request) [
  | refused f s p same quiet _ _ ↦
      let is_f = same_event w _ (audit_count-graph_event w s p not_called) (rw same at m) in
      (
        λ _. rw same (call_count-graph_event w s p not_called),
        λ _. inl (ap (λ (x : AuditEvent _ _ _). x.upstream_status) is_f ∙ quiet),
      )
  | stopped same _ _ _ ↦ absurd (no_member (rw same at m))
  | without_client p f error same gone says _ ↦
      let is_f = same_event w _ refl (rw same at m) in
      (
        λ _. rw same refl,
        λ _. inr (p, error, gone, ap (λ (x : AuditEvent _ _ _). x.upstream_status) is_f ∙ says),
      )
  | reached p f same loud _ _ ↦
      let is_f = reached_event w request p (rw same at m) in
      (
        λ quiet.
            absurd (loud (sym (ap (λ (x : AuditEvent _ _ _). x.upstream_status) is_f) ∙ quiet)),
        λ zero_calls. absurd (ground (arith, rw same at zero_calls)),
      )
]
