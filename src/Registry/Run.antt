-- ===== src/Registry/Run.antt =====
-- Any sequence of calls on the registry, and what holds of the tables throughout.
pub mod Invariants
use vyuu_mcp_gateway.Prelude.{ℕ, ℤ, Bool, String, Option, List, [], ◌∷◌, Result, ok, raise}
use vyuu_mcp_gateway.Tables.{AdminAuditActor, Db}
use vyuu_mcp_gateway.Registry.Errors.{RegistryError}
use vyuu_mcp_gateway.Registry.Issue.{Surroundings}
use vyuu_mcp_gateway.Registry.Requests.{submit_access_request, withdraw_access_request}
use vyuu_mcp_gateway.Registry.Approvals.{approve_access_request, decline_access_request}
use vyuu_mcp_gateway.Registry.Jit.{
  request_jit_access, request_tool_elevation, configure_vserver_jit, configure_vserver_jit_tools,
}

-- The calls that change state, with their arguments: the tenant first, then as in the source.
pub data Call : Type 0 where
  submit : Surroundings → ℕ → ℕ → ℕ → Option String → Call
  withdraw : ℕ → ℕ → ℕ → Call
  approve : Surroundings → ℕ → ℕ → ℕ → Option ℤ → Option AdminAuditActor → Call
  decline : Surroundings → ℕ → ℕ → ℕ → String → Option AdminAuditActor → Call
  jit_access : Surroundings → ℕ → ℕ → ℕ → ℤ → Option String → Call
  tool_elevation : Surroundings → ℕ → ℕ → ℕ → String → ℤ → Option String → Call
  configure_jit : ℕ → ℕ → Bool → Option ℤ → Option Bool → Option Bool → AdminAuditActor → Call
  configure_jit_tools : ℕ → ℕ → List (String × ℤ) → AdminAuditActor → Call

-- A call that raises leaves the tables as they were.
abbrev pub after : {A : Type 0} → Db → Result RegistryError (Db × A) → Db
after db (ok r) = r.0
after db (raise e) = db

unfoldable pub perform : Db → Call → Db
perform db (submit env t u v note) = after db (submit_access_request env t u v note db)
perform db (withdraw t u r) = after db (withdraw_access_request t u r db)
perform db (approve env t r op d actor) = after db (approve_access_request env t r op d actor db)
perform db (decline env t r op note actor) =
    after db (decline_access_request env t r op note actor db)
perform db (jit_access env t u v d why) = after db (request_jit_access env t u v d why db)
perform db (tool_elevation env t u v tool d why) =
    after db (request_tool_elevation env t u v tool d why db)
perform db (configure_jit t v enabled d auto why actor) =
    after db (configure_vserver_jit t v enabled d auto why actor db)
perform db (configure_jit_tools t v limits actor) =
    after db (configure_vserver_jit_tools t v limits actor db)

unfoldable pub run : Db → List Call → Db
run db [] = db
run db (call ∷ calls) = run (perform db call) calls
