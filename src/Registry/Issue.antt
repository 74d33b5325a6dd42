-- ===== src/Registry/Issue.antt =====
-- The rows that an elevation adds: `issue_jit_grant`, `_build_tool_grant`,
-- `issue_tool_elevation_for_request` and `_issue_tool_elevation` of jit_service.py.
use vyuu_mcp_gateway.Prelude.{
  ℕ, ◌+◌, String, Bool, true, Option, none, some, [], ◌∷◌, find, ◌==◌, Result, ok, raise, ◌>>=◌,
}
use Prim.Native.String.{◌++◌}
use vyuu_mcp_gateway.Tables.{
  VirtualServer, VirtualServerGrant, VirtualServerToolGrant, AccessRequest, User, Db, user,
  GrantVia, jit_approved, AdminAuditActor, DetailValue, text, ident, number, instant, via, or_null,
  record_admin_action, seconds,
}
use vyuu_mcp_gateway.Registry.Errors.{RegistryError, assertion_failed, _load_vserver}

-- What the surroundings supply to one call: the readings of the clock, in the order in which they
-- are taken, and a fresh id.
pub record Surroundings : Type 0 where
  pub checked_at : ℕ
  pub issued_at : ℕ
  pub decided_at : ℕ
  pub fresh_id : ℕ

pub record JitElevation : Type 0 where
  pub granted : Bool
  pub grant : Option VirtualServerGrant
  pub request : Option AccessRequest
  pub expires_at : Option ℕ
  pub tool_grant : Option VirtualServerToolGrant

-- `user.email if user is not None else None`
email_of : ℕ → Db → DetailValue
email_of uid db = or_null (λ (u : User). text u.email) (find (λ u. u.id == uid) db.users)

-- Who decides, and how the grant says so.
pub record Provenance : Type 0 where
  pub granted_via : GrantVia
  pub operator_id : Option ℕ
  pub actor : AdminAuditActor

unfoldable pub jit_grant :
    Surroundings → ℕ → ℕ → VirtualServer → ℕ → Option String → Provenance → VirtualServerGrant
jit_grant env tenant uid vserver duration justification by = record {
  id = env.fresh_id;
  tenant_id = tenant;
  vserver_id = vserver.id;
  principal_kind = user;
  principal_id = uid;
  granted_by = by.operator_id;
  granted_via = by.granted_via;
  justification = justification;
  expires_at = some (env.issued_at + seconds duration);
  revoked_at = none;
}

unfoldable pub issue_jit_grant :
    Surroundings → ℕ → ℕ → VirtualServer → ℕ → Option String → Provenance → Db → Db × JitElevation
unfolding jit_grant email_of record_admin_action
issue_jit_grant env tenant uid vserver duration justification by db =
    let expires_at = env.issued_at + seconds duration in
    let grant = jit_grant env tenant uid vserver duration justification by in
    let added : Db = record db { grants = grant ∷ db.grants } in
    (
      record_admin_action tenant by.actor "grant.jit_issue"
          (record { kind = "vserver"; id = some vserver.id; display = some vserver.name })
          (("grant_id", ident grant.id)
            ∷ ("user_id", ident uid)
            ∷ ("user_email", email_of uid db)
            ∷ ("granted_via", via by.granted_via)
            ∷ ("duration_seconds", number duration)
            ∷ ("expires_at", instant expires_at)
            ∷ ("justification", or_null text justification)
            ∷ [])
          added,
      record {
        granted = true;
        grant = some grant;
        request = none;
        expires_at = some expires_at;
        tool_grant = none;
      },
    )

unfoldable pub tool_grant_row :
    Surroundings
    → ℕ
    → ℕ
    → VirtualServer
    → String
    → ℕ
    → Option String
    → Provenance
    → VirtualServerToolGrant
tool_grant_row env tenant uid vserver tool duration justification by = record {
  id = env.fresh_id;
  tenant_id = tenant;
  vserver_id = vserver.id;
  exposed_tool_name = tool;
  principal_kind = user;
  principal_id = uid;
  granted_by = by.operator_id;
  granted_via = by.granted_via;
  justification = justification;
  expires_at = env.issued_at + seconds duration;
  revoked_at = none;
}

unfoldable pub _build_tool_grant :
    Surroundings
    → ℕ
    → ℕ
    → VirtualServer
    → String
    → ℕ
    → Option String
    → Provenance
    → Db
    → Db × VirtualServerToolGrant
unfolding tool_grant_row email_of record_admin_action
_build_tool_grant env tenant uid vserver tool duration justification by db =
    let grant = tool_grant_row env tenant uid vserver tool duration justification by in
    let added : Db = record db { tool_grants = grant ∷ db.tool_grants } in
    (
      record_admin_action tenant by.actor "grant.tool_elevation"
          (record {
            kind = "tool";
            id = some vserver.id;
            display = some (vserver.name ++ "/" ++ tool);
          })
          (("grant_id", ident grant.id)
            ∷ ("vserver_id", ident vserver.id)
            ∷ ("exposed_tool_name", text tool)
            ∷ ("user_id", ident uid)
            ∷ ("user_email", email_of uid db)
            ∷ ("granted_via", via by.granted_via)
            ∷ ("duration_seconds", number duration)
            ∷ ("expires_at", instant grant.expires_at)
            ∷ ("justification", or_null text justification)
            ∷ [])
          added,
      grant,
    )

unfoldable pub _issue_tool_elevation :
    Surroundings
    → ℕ
    → ℕ
    → VirtualServer
    → String
    → ℕ
    → Option String
    → Provenance
    → Db
    → Db × JitElevation
unfolding _build_tool_grant
_issue_tool_elevation env tenant uid vserver tool duration justification by db =
    let (db', grant) = _build_tool_grant env tenant uid vserver tool duration justification by db in
    (
      db',
      record {
        granted = true;
        grant = none;
        request = none;
        expires_at = some grant.expires_at;
        tool_grant = some grant;
      },
    )

-- The approval path for a queued request that names a tool; the assertion is on that name.
unfoldable pub issue_tool_elevation_for_request :
    Surroundings
    → ℕ
    → AccessRequest
    → ℕ
    → ℕ
    → AdminAuditActor
    → Db
    → Result RegistryError (Db × VirtualServerToolGrant)
unfolding _load_vserver _build_tool_grant
issue_tool_elevation_for_request env tenant request operator_id duration actor db =
    elim request.exposed_tool_name [
      | none ↦ raise assertion_failed
      | some tool ↦ do
        vserver ← _load_vserver tenant request.vserver_id db
        ok (
            _build_tool_grant env tenant request.user_id vserver tool duration request.note
              (record { granted_via = jit_approved; operator_id = some operator_id; actor = actor })
              db)
    ]
