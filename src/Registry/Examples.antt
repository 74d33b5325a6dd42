-- ===== src/Registry/Examples.antt =====
-- Runs of the registry's functions at concrete rows.
use vyuu_mcp_gateway.Prelude.{
  ℕ, ◌+◌, ◌≡◌, ◌⊎◌, ◌↔◌, inr, refl, pos, String, true, false, Option, none, some, List, [], ◌∷◌,
  Memᴰ, Result, ok, raise, arith, ltb, str_eq, if◌then◌else◌,
}
use vyuu_mcp_gateway.Prelude.Text.{strip}
use vyuu_mcp_gateway.Tables.{
  VirtualServer, VirtualServerGrant, VirtualServerToolGrant, AccessRequest, pending, withdrawn,
  private, public, user, group, operator, jit_approved, Db, seconds, record_admin_action,
}
use vyuu_mcp_gateway.Access.{
  Principal, federated_user, can_hold_grants, held_candidates, held_grants, user_has_active_grant,
  assert_principal_can_access_vserver,
}
use vyuu_mcp_gateway.Access.Exact.{
  Entitled, user_has_active_grant_exact, access_mirrors, access_exact,
}
use vyuu_mcp_gateway.Access.Rows.{DistinctIds}
use vyuu_mcp_gateway.Registry.Errors.{
  RegistryError, select_vserver, _load_vserver, _validate_duration, _validate_justification,
}
use vyuu_mcp_gateway.Registry.Issue.{Surroundings, JitElevation, jit_grant, issue_jit_grant}
use vyuu_mcp_gateway.Registry.Requests.{_load_pending, update_request}
use vyuu_mcp_gateway.Registry.Approvals.{
  approve_access_request, approve_loaded, approve_vserver, create_grant, _approved_expiry, audit_if,
  approved_grant,
}
use vyuu_mcp_gateway.Registry.Approvals.Bounds.{Bounded, approval-Bounded}
use vyuu_mcp_gateway.Registry.Approvals.Tools.{tool_approval_ignores_policy}
use vyuu_mcp_gateway.Registry.Jit.{auto_approved, request_jit_access}
use vyuu_mcp_gateway.Registry.Jit.Window.{granted_window}
use vyuu_mcp_gateway.Registry.Run.{Call, submit, withdraw, approve, jit_access, perform, run}
use vyuu_mcp_gateway.Registry.Run.Invariants.{
  OnePending, AskedDuring, run-OnePending, standing_was_asked, decision_is_final,
}

abbrev server : VirtualServer
server = record {
  id = 5;
  tenant_id = 1;
  name = "tickets";
  visibility = private;
  rename_map = [];
  required_scopes = [];
  jit_enabled = true;
  jit_max_duration_seconds = 3600;
  jit_auto_approve = true;
  jit_require_justification = false;
  jit_tools = ("close", 60) ∷ [];
}

abbrev clock : Surroundings
clock = record { checked_at = 100; issued_at = 200; decided_at = 300; fresh_id = 77 }

abbrev team_grant : VirtualServerGrant
team_grant = record {
  id = 70;
  tenant_id = 1;
  vserver_id = 5;
  principal_kind = group;
  principal_id = 40;
  granted_by = some 2;
  granted_via = operator;
  justification = none;
  expires_at = none;
  revoked_at = none;
}

abbrev ask : ℕ → Option String → AccessRequest
ask id tool = record {
  id = id;
  tenant_id = 1;
  user_id = 9;
  vserver_id = 5;
  status = pending;
  note = some "on call";
  requested_duration_seconds = some 600;
  exposed_tool_name = tool;
  decision_note = none;
  decided_by = none;
  decided_at = none;
  created_grant_id = none;
}

-- User 8 is in the team that holds the grant; user 9 is not.
abbrev tables : List AccessRequest → Db
tables requests = record {
  vservers = server ∷ [];
  memberships = record { user_id = 8; group_id = 40 } ∷ [];
  grants = team_grant ∷ [];
  tool_grants = [];
  requests = requests;
  users = record { id = 9; tenant_id = 1; email = "nine@example.test" } ∷ [];
  audit = [];
}

abbrev home : Db
home = tables []

abbrev elevated : Db × JitElevation
elevated = issue_jit_grant clock 1 9 server 60 none auto_approved home

jit_access_returns : request_jit_access clock 1 9 5 (pos 60) none home ≡ ok elevated
unfolding request_jit_access _load_vserver select_vserver _validate_duration _validate_justification
    strip user_has_active_grant held_candidates held_grants
jit_access_returns = refl

elevated_granted : elevated.1.granted ≡ true
unfolding issue_jit_grant
elevated_granted = refl

elevated_keyed : DistinctIds elevated.0.grants
unfolding issue_jit_grant jit_grant record_admin_action
elevated_keyed = ground arith

granted_window_example : user_has_active_grant 1 5 9 250 elevated.0 ≡ ltb 250 (200 + seconds 60)
granted_window_example =
    granted_window clock 1 9 5 60 none home elevated.0 elevated.1 250 jit_access_returns
      elevated_granted elevated_keyed (omega arith)

abbrev asked : Db
asked = tables (ask 30 none ∷ [])

abbrev asked_tool : Db
asked_tool = tables (ask 31 (some "close") ∷ [])

loaded_pending : _load_pending 1 30 asked ≡ ok (ask 30 none)
unfolding _load_pending
loaded_pending = refl

loaded_tool : _load_pending 1 31 asked_tool ≡ ok (ask 31 (some "close"))
unfolding _load_pending
loaded_tool = refl

selected : select_vserver 1 5 asked ≡ some server
unfolding select_vserver
selected = refl

selected_for_tool : select_vserver 1 5 asked_tool ≡ some server
unfolding select_vserver
selected_for_tool = refl

-- The server's ceiling for the tool is a minute; the request is for ten.
tool_approval_ignores_policy_example :
    (out : Db × AccessRequest) × (g : VirtualServerToolGrant) × (approve_access_request clock 1 31 2
        (some (pos 0))
        none
        asked_tool
      ≡ ok out)
    × (out.0.tool_grants ≡ g ∷ asked_tool.tool_grants)
    × (g.exposed_tool_name ≡ "close")
    × (g.principal_id ≡ 9)
    × (g.expires_at ≡ clock.issued_at + seconds 600)
tool_approval_ignores_policy_example =
    tool_approval_ignores_policy clock 1 31 2 600 (some (pos 0)) none asked_tool
      (ask 31 (some "close")) "close" server loaded_tool refl refl (omega arith) (inr refl)
      selected_for_tool

abbrev not_there : Db × AccessRequest
not_there = (asked, ask 30 none)

abbrev approval : Result RegistryError (Db × AccessRequest)
approval = approve_access_request clock 1 30 2 none none asked

abbrev or_else : Result RegistryError (Db × AccessRequest) → Db × AccessRequest
or_else (ok out) = out
or_else (raise e) = not_there

approval_returns : approval ≡ ok (or_else approval)
unfolding approve_access_request approve_loaded approve_vserver create_grant _approved_expiry
    audit_if _load_pending select_vserver user_has_active_grant held_candidates held_grants
approval_returns = refl

approval-Bounded_example :
    ((user_has_active_grant 1 5 9 clock.checked_at asked ≡ true)
      × ((or_else approval).0.grants ≡ asked.grants))
    ⊎ ((g : VirtualServerGrant) × ((or_else approval).0.grants ≡ g ∷ asked.grants)
        × Bounded clock 600 server g.expires_at
        × (g.granted_via ≡ jit_approved)
        × (g.granted_by ≡ some 2)
        × (g.principal_id ≡ 9)
        × (g.vserver_id ≡ 5))
approval-Bounded_example =
    approval-Bounded clock 1 30 2 600 none none asked (ask 30 none) server loaded_pending refl refl
      selected approval_returns

abbrev calls : List Call
calls =
    submit clock 1 9 5 none
    ∷ withdraw 1 9 30
    ∷ jit_access clock 1 9 5 (pos 60) none
    ∷ approve clock 1 30 2 none none
    ∷ []

-- A request for the server and one for a tool of it do not block each other.
both_pending : OnePending (tables (ask 30 none ∷ ask 31 (some "close") ∷ [])).requests
both_pending = ((λ _. refl), ((λ _. refl), tt))

run-OnePending_example :
    OnePending (run (tables (ask 30 none ∷ ask 31 (some "close") ∷ [])) calls).requests
run-OnePending_example =
    run-OnePending (tables (ask 30 none ∷ ask 31 (some "close") ∷ [])) calls both_pending

-- A request that asks for no duration, and its approval without one.
abbrev asked_forever : Db
asked_forever = tables (record (ask 32 none) { requested_duration_seconds = none } ∷ [])

abbrev standing : VirtualServerGrant
standing = record {
  id = 77;
  tenant_id = 1;
  vserver_id = 5;
  principal_kind = user;
  principal_id = 9;
  granted_by = some 2;
  granted_via = operator;
  justification = some "on call";
  expires_at = none;
  revoked_at = none;
}

abbrev approve_forever : List Call
approve_forever = approve clock 1 32 2 none none ∷ []

standing_there : Memᴰ standing (run asked_forever approve_forever).grants
unfolding run perform approve_access_request approve_loaded approve_vserver create_grant
    _approved_expiry audit_if _load_pending select_vserver user_has_active_grant held_candidates
    held_grants update_request approved_grant
standing_there = Memᴰ.head refl

standing_was_asked_example :
    Memᴰ standing asked_forever.grants ⊎ AskedDuring asked_forever approve_forever standing
standing_was_asked_example =
    standing_was_asked asked_forever approve_forever standing standing_there refl

abbrev gone : AccessRequest
gone = record (ask 30 none) { status = withdrawn }

decision_is_final_example :
    Memᴰ gone (perform (tables (gone ∷ [])) (approve clock 1 30 2 none none)).requests
decision_is_final_example =
    decision_is_final (tables (gone ∷ [])) (approve clock 1 30 2 none none) gone refl
      (λ _. refl, tt) (Memᴰ.head refl)

user_has_active_grant_exact_example :
    (user_has_active_grant 1 5 8 100 home ≡ true) ↔ Entitled 1 5 8 100 home
user_has_active_grant_exact_example = user_has_active_grant_exact 1 5 8 100 home (tt, tt)

abbrev parse_digit : String → Option ℕ
parse_digit s = if str_eq s "8" then some 8 else none

abbrev eight : Principal
eight = record { type = federated_user; id = "8"; tenant_id = 1; scopes = [] }

access_mirrors_example :
    (assert_principal_can_access_vserver parse_digit 1 server eight 100 home ≡ ok tt)
    ↔ (user_has_active_grant 1 5 8 100 home ≡ true)
access_mirrors_example = access_mirrors parse_digit 1 8 100 server eight home refl refl refl

access_exact_example :
    (assert_principal_can_access_vserver parse_digit 1 server eight 100 home ≡ ok tt) ↔ (
      (server.visibility ≡ public)
      ⊎ ((can_hold_grants federated_user ≡ true)
          × ((uid : ℕ) × (parse_digit "8" ≡ some uid) × Entitled 1 5 uid 100 home)))
access_exact_example = access_exact parse_digit 1 100 server eight home (tt, tt)
