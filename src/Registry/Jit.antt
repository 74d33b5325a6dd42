-- ===== src/Registry/Jit.antt =====
-- src/vyuu_gateway/registry/jit_service.py: the policy of a virtual server, and requests for a
-- time-boxed elevation.
pub mod Passed
pub mod Effects
pub mod Bounds
pub mod Window
use vyuu_mcp_gateway.Prelude.{
  ℕ, ◌+◌, ℤ, pos, is_nonpositive, exceeds, to_ℕ, String, str_eq, Bool, true, false, not, ◌&&◌, ◌||◌,
  Option, none, some, List, [], ◌∷◌, ◌++◌, map, keep, any, ◌==◌, is_some, Result, ok, raise, ◌>>=◌,
  ◌>>◌, raise_if, if◌then◌else◌, text_eq,
}
use vyuu_mcp_gateway.Prelude.Text.{strip, sort_texts}
use vyuu_mcp_gateway.Dict
use vyuu_mcp_gateway.Dict.{Dict}
use vyuu_mcp_gateway.Tables.{
  VirtualServer, AccessRequest, is_public, is_none, Db, jit_auto, AdminAuditActor, by_system,
  AdminAuditTarget, DetailValue, null, text, ident, number, flag, tools, names, policy,
  record_admin_action,
}
use vyuu_mcp_gateway.Access.{user_has_active_grant}
use vyuu_mcp_gateway.Registry.Errors.{
  RegistryError, user_already_has_access, vserver_is_public, jit_not_enabled, jit_invalid_duration,
  tool_not_jit_eligible, vserver_access_required, max_jit_duration_seconds, or_raise, _load_vserver,
  _validate_duration, _validate_tool_duration, _validate_justification,
}
use vyuu_mcp_gateway.Registry.Issue.{
  Surroundings, JitElevation, Provenance, issue_jit_grant, _issue_tool_elevation,
}
use vyuu_mcp_gateway.Registry.Requests.{insert_pending, pending_request}

-- `AdminAuditActor.system(_AUTO_APPROVE_ACTOR)`: nobody decided.
abbrev pub auto_approved : Provenance
auto_approved = record {
  granted_via = jit_auto;
  operator_id = none;
  actor = by_system "jit_auto_approve";
}

-- A queued request, as `JitElevation` reports it.
pub queued : Db × AccessRequest → Db × JitElevation
queued (db, request) = (
  db,
  record {
    granted = false;
    grant = none;
    request = some request;
    expires_at = none;
    tool_grant = none;
  },
)

unfoldable pub request_jit_access :
    Surroundings → ℕ → ℕ → ℕ → ℤ → Option String → Db → Result RegistryError (Db × JitElevation)
request_jit_access env tenant uid vserver_id duration_seconds justification db = do
  vserver ← _load_vserver tenant vserver_id db
  raise_if (is_public vserver.visibility) vserver_is_public
  raise_if (not vserver.jit_enabled) jit_not_enabled
  duration ← _validate_duration duration_seconds vserver
  reason ← _validate_justification justification vserver
  raise_if (user_has_active_grant tenant vserver_id uid env.checked_at db) user_already_has_access
  let inserted =
      insert_pending
        (pending_request env.fresh_id tenant uid vserver_id reason (some duration) none) db
  if vserver.jit_auto_approve
      then ok (issue_jit_grant env tenant uid vserver duration reason auto_approved db)
      else (inserted >>= λ r. ok (queued r))

pub request_tool_elevation :
    Surroundings
    → ℕ
    → ℕ
    → ℕ
    → String
    → ℤ
    → Option String
    → Db
    → Result RegistryError (Db × JitElevation)
request_tool_elevation env tenant uid vserver_id tool duration_seconds justification db = do
  vserver ← _load_vserver tenant vserver_id db
  ceiling ← or_raise tool_not_jit_eligible (Dict.get vserver.jit_tools tool)
  raise_if (not (user_has_active_grant tenant vserver_id uid env.checked_at db))
      vserver_access_required
  duration ← _validate_tool_duration duration_seconds ceiling
  reason ← _validate_justification justification vserver
  let inserted =
      insert_pending
        (pending_request env.fresh_id tenant uid vserver_id reason (some duration) (some tool)) db
  if vserver.jit_auto_approve
      then ok (_issue_tool_elevation env tenant uid vserver tool duration reason auto_approved db)
      else (inserted >>= λ r. ok (queued r))

-- The row with this primary key, written anew.
update_vserver : VirtualServer → Db → Db
update_vserver row db = record db {
  vservers = map (λ v. if v.id == row.id then row else v) db.vservers;
}

-- `if x is not None: field = x`
abbrev pub or_keep {ℓ} : {A : Type ℓ} → A → Option A → A
or_keep old none = old
or_keep old (some a) = a

checked_ceiling : ℕ → Option ℤ → Result RegistryError ℕ
checked_ceiling old none = ok old
checked_ceiling old (some d) =
    if is_nonpositive d || exceeds d max_jit_duration_seconds
    then raise jit_invalid_duration
    else ok (to_ℕ d)

-- The dictionaries `before` and `after`.
policy_of : VirtualServer → DetailValue
policy_of v =
    policy v.jit_enabled v.jit_max_duration_seconds v.jit_auto_approve v.jit_require_justification

pub configure_vserver_jit :
    ℕ
    → ℕ
    → Bool
    → Option ℤ
    → Option Bool
    → Option Bool
    → AdminAuditActor
    → Db
    → Result RegistryError (Db × VirtualServer)
configure_vserver_jit tenant vserver_id enabled max_duration auto_approve require_justification
      actor db =
    do
      vserver ← _load_vserver tenant vserver_id db
      raise_if (enabled && is_public vserver.visibility) vserver_is_public
      ceiling ← checked_ceiling vserver.jit_max_duration_seconds max_duration
      let after : VirtualServer = record vserver {
        jit_enabled = enabled;
        jit_max_duration_seconds = ceiling;
        jit_auto_approve = or_keep vserver.jit_auto_approve auto_approve;
        jit_require_justification = or_keep vserver.jit_require_justification require_justification;
      }
      ok (
        record_admin_action tenant actor
            (if enabled then "vserver.jit_enable" else "vserver.jit_disable")
            (record { kind = "vserver"; id = some vserver.id; display = some vserver.name })
            (("before", policy_of vserver)
              ∷ ("after", policy_of after)
              ∷ ("self_service", flag (after.jit_enabled && after.jit_auto_approve))
              ∷ [])
            (update_vserver after db),
        after,
      )

-- One entry of the map that `configure_vserver_jit_tools` is given.
clean_tool : String × ℤ → Result RegistryError (String × ℕ)
clean_tool (tool_name, limit) =
    let name = strip tool_name in
    if str_eq name ""
    then raise tool_not_jit_eligible
    else if is_nonpositive limit || exceeds limit max_jit_duration_seconds
    then raise jit_invalid_duration
    else ok (name, to_ℕ limit)

-- The loop over `jit_tools.items()`, which fills `cleaned`.
clean_tools : List (String × ℤ) → Dict String ℕ → Result RegistryError (Dict String ℕ)
clean_tools [] cleaned = ok cleaned
clean_tools (entry ∷ entries) cleaned = do
  checked ← clean_tool entry
  clean_tools entries (Dict.put cleaned checked.0 checked.1)

-- `sorted(set(a) - set(b))`, on the keys
keys_without : Dict String ℕ → Dict String ℕ → List String
keys_without a b = sort_texts (keep (λ k. is_none (Dict.get b k)) (Dict.keys a))

pub configure_vserver_jit_tools :
    ℕ → ℕ → List (String × ℤ) → AdminAuditActor → Db → Result RegistryError (Db × VirtualServer)
configure_vserver_jit_tools tenant vserver_id jit_tools actor db = do
  vserver ← _load_vserver tenant vserver_id db
  cleaned ← clean_tools jit_tools []
  let after : VirtualServer = record vserver { jit_tools = cleaned }
  let before = vserver.jit_tools
  ok (
    record_admin_action tenant actor "vserver.jit_tools_set"
        (record { kind = "vserver"; id = some vserver.id; display = some vserver.name })
        (("before", tools before)
          ∷ ("after", tools cleaned)
          ∷ ("newly_gated", names (keys_without cleaned before))
          ∷ ("no_longer_gated", names (keys_without before cleaned))
          ∷ [])
        (update_vserver after db),
    after,
  )
