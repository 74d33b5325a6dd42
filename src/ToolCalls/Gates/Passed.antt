-- ===== src/ToolCalls/Gates/Passed.antt =====
-- How a tool call of tool_calls/lifecycle.py passes the gates before the policy, or ends at one.
use vyuu_mcp_gateway.Prelude.{
  ◌≡◌, refl, ◌∙◌, inl, inr, false, String, str_eq, str_eq_iff, Option, none, some, any_sound, find,
  find_sound, Memᴰ, ◌==◌, Result, ok, raise, arith, Bool-cases, Option-cases, text_eq,
}
use vyuu_mcp_gateway.Dict
use vyuu_mcp_gateway.Access.{Principal}
use vyuu_mcp_gateway.ToolCalls.{
  GatewaySession, ResolvedTool, ResolvedToolsList, ResolveError, virtual_server_not_found,
  capabilities_not_synced_error, ToolCallRequest, Collaborators,
}
use vyuu_mcp_gateway.ToolCalls.Lifecycle.{
  on_arguments, lacks_scope, lacks_elevation, on_tool, on_found, on_resolved, on_principal,
  no_session, on_session, session_of, handle_tool_call,
}
use vyuu_mcp_gateway.ToolCalls.Gates.{End}
use vyuu_mcp_gateway.ToolCalls.Gates.Upstream.{denied-End, on_decision-End}

module _ {A C R : Type 0} (w : Collaborators A C R) (request : ToolCallRequest A C R) where
  lacks_scope_sound :
      (principal : Principal) (required : Option String)
      → lacks_scope w principal required ≡ false
      → (scope : String) → required ≡ some scope
      → Memᴰ scope principal.scopes
  lacks_scope_sound principal none h scope e = absurd (ground arith)
  lacks_scope_sound principal (some needed) h scope e =
      let (x, m, same) = any_sound (λ s. str_eq s needed) principal.scopes (ground arith) in
      let is_scope : x ≡ scope = (str_eq_iff x needed).0 same ∙ ground arith in rw⁻¹ is_scope m

  on_tool-End :
      (session : GatewaySession) (principal : Principal) (list : ResolvedToolsList)
      (tool : ResolvedTool)
      → session_of w request ≡ some session
      → session.tenant_id ≡ request.tenant_id
      → w.validate_principal session.tenant_id request.identity_credentials ≡ ok principal
      → w.resolve_tools session.tenant_id session.vserver_name ≡ ok list
      → find (λ t. str_eq t.exposed_name request.tool_name) list.tools ≡ some tool
      → End w request (on_tool w request session principal list tool)
  unfolding on_tool on_arguments
  on_tool-End session principal list tool s t p r f =
      elim (Bool-cases
        (lacks_scope w principal (Dict.get list.required_scopes tool.exposed_name))) [
          | inl e ↦ rw e (denied-End w request _ _ _ _ _ _ _ refl)
          | inr scoped ↦ elim (Bool-cases (lacks_elevation w session principal list tool)) [
            | inl e ↦ rw (scoped, e) (denied-End w request _ _ _ _ _ _ _ refl)
            | inr raised ↦ elim (Option-cases (w.schema_error tool request.arguments)) [
              | inr (message, e) ↦ rw (scoped, raised, e) (denied-End w request _ _ _ _ _ _ _ refl)
              | inl valid ↦
                  let (listed, same) =
                    find_sound (λ (t : ResolvedTool). str_eq t.exposed_name request.tool_name)
                      list.tools f in
                  rw (scoped, raised, valid)
                    (on_decision-End w request
                      (record {
                        session = session;
                        principal = principal;
                        list = list;
                        tool = tool;
                        has_session = s;
                        same_tenant = t;
                        is_principal = p;
                        resolved = r;
                        listed = listed;
                        named = (str_eq_iff tool.exposed_name request.tool_name).0 same;
                        in_scope =
                            lacks_scope_sound principal
                              (Dict.get list.required_scopes tool.exposed_name) scoped;
                        elevated = λ ceiling g. ground arith;
                        valid_arguments = valid;
                      })
                      _ refl)
            ]
          ]
        ]

  on_resolved-End :
      (session : GatewaySession) (principal : Principal) (r : Result ResolveError ResolvedToolsList)
      → session_of w request ≡ some session
      → session.tenant_id ≡ request.tenant_id
      → w.validate_principal session.tenant_id request.identity_credentials ≡ ok principal
      → w.resolve_tools session.tenant_id session.vserver_name ≡ r
      → End w request (on_resolved w request session principal r)
  unfolding on_resolved on_found
  on_resolved-End session principal (raise virtual_server_not_found) s t p h =
      denied-End w request _ _ _ _ _ _ _ refl
  on_resolved-End session principal (raise (capabilities_not_synced_error text)) s t p h =
      denied-End w request _ _ _ _ _ _ _ refl
  on_resolved-End session principal (ok list) s t p h =
      elim (Option-cases (find (λ t. str_eq t.exposed_name request.tool_name) list.tools)) [
        | inl e ↦ rw e (denied-End w request _ _ _ _ _ _ _ refl)
        | inr (tool, e) ↦ rw e (on_tool-End session principal list tool s t p h e)
      ]

  on_principal-End :
      (session : GatewaySession) (r : Result String Principal)
      → session_of w request ≡ some session
      → session.tenant_id ≡ request.tenant_id
      → w.validate_principal session.tenant_id request.identity_credentials ≡ r
      → End w request (on_principal w request session r)
  unfolding on_principal
  on_principal-End session (raise name) s t h = denied-End w request _ _ _ _ _ _ _ refl
  on_principal-End session (ok principal) s t h = on_resolved-End session principal _ s t h refl

  on_session-End :
      (found : Option GatewaySession)
      → session_of w request ≡ found
      → End w request (on_session w request found)
  unfolding on_session no_session
  on_session-End none h = denied-End w request _ _ _ _ _ _ _ refl
  on_session-End (some session) h = elim (Bool-cases (session.tenant_id == request.tenant_id)) [
    | inl e ↦ rw e (on_principal-End session _ h (ground arith) refl)
    | inr e ↦ rw e (denied-End w request _ _ _ _ _ _ _ refl)
  ]

  pub handle_tool_call-End : End w request (handle_tool_call w request)
  unfolding handle_tool_call
  handle_tool_call-End = on_session-End (session_of w request) refl
