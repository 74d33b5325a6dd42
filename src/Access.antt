-- ===== src/Access.antt =====
-- src/vyuu_gateway/virtual_servers/access.py and virtual_servers/tool_elevation.py, with
-- `_user_has_active_grant` of registry/access_requests_service.py. `uuid.UUID` is the parameter
-- `parse_uuid`; `datetime.now(UTC)` is an argument.
pub mod Rows
pub mod Exact
use vyuu_mcp_gateway.Prelude.{
  ℕ, String, Bool, true, false, not, ◌&&◌, Option, none, some, List, [], ◌∷◌, ◌++◌, map, ◌==◌, ltb,
  str_eq, any, keep, is_some, Result, ok, raise, if◌then◌else◌,
}
use vyuu_mcp_gateway.Tables.{
  VirtualServer, VirtualServerGrant, VirtualServerToolGrant, UserGroupMembership, Db, is_public,
  is_user, is_group, is_none, unexpired, member,
}

-- `PrincipalType` of identity/models.py.
pub data PrincipalType : Type 0 where
  api_key endpoint_session federated_user server_agent : PrincipalType

abbrev pub can_hold_grants : PrincipalType → Bool
can_hold_grants api_key = true
can_hold_grants federated_user = true
can_hold_grants _ = false

-- `Principal`: what the gateway's checks read of it.
pub record Principal : Type 0 where
  pub type : PrincipalType
  pub id : String
  pub tenant_id : ℕ
  pub scopes : List String

-- The messages of `VirtualServerAccessDeniedError`.
pub data AccessDenied : Type 0 where
  wrong_principal_type id_not_uuid no_active_grant all_expired : AccessDenied

-- The `where` of `direct_grant`.
abbrev pub grants_directly : ℕ → ℕ → ℕ → VirtualServerGrant → Bool
grants_directly tenant vserver uid g =
    g.vserver_id == vserver
    && g.tenant_id == tenant
    && is_user g.principal_kind
    && g.principal_id == uid
    && is_none g.revoked_at

-- The `where` of `group_grant`, on one row of the join.
abbrev pub grants_via : ℕ → ℕ → ℕ → VirtualServerGrant → UserGroupMembership → Bool
grants_via tenant vserver uid g m =
    m.group_id == g.principal_id
    && g.vserver_id == vserver
    && g.tenant_id == tenant
    && is_group g.principal_kind
    && is_none g.revoked_at
    && m.user_id == uid

-- One id for each row of the join that passes.
joined_ids :
    (VirtualServerGrant → UserGroupMembership → Bool)
    → List UserGroupMembership
    → VirtualServerGrant
    → List ℕ
joined_ids p ms g = map (λ _. g.id) (keep (p g) ms)

pub group_ids :
    (VirtualServerGrant → UserGroupMembership → Bool)
    → List UserGroupMembership
    → List VirtualServerGrant
    → List ℕ
unfolding joined_ids
group_ids p ms [] = []
group_ids p ms (g ∷ gs) = joined_ids p ms g ++ group_ids p ms gs

-- `direct_grant.union_all(group_grant)` in access.py
unfoldable pub candidates : ℕ → ℕ → ℕ → Db → List ℕ
unfolding group_ids
candidates tenant vserver uid db =
    map (λ g. g.id) (keep (grants_directly tenant vserver uid) db.grants)
    ++ group_ids (grants_via tenant vserver uid) db.memberships db.grants

-- `VirtualServerGrant.id.in_(candidates)`
unfoldable pub grant_rows : List ℕ → Db → List VirtualServerGrant
grant_rows ids db = keep (λ g. member g.id ids) db.grants

abbrev pub is_empty : List ℕ → Bool
is_empty [] = true
is_empty (_ ∷ _) = false

-- The `where` of `direct` in access_requests_service.py, written apart from that of access.py.
abbrev pub holds_directly : ℕ → ℕ → ℕ → VirtualServerGrant → Bool
holds_directly tenant vserver uid g =
    g.tenant_id == tenant
    && g.vserver_id == vserver
    && is_user g.principal_kind
    && g.principal_id == uid
    && is_none g.revoked_at

-- The `where` of `via_group`, on one row of the join.
abbrev pub holds_via : ℕ → ℕ → ℕ → VirtualServerGrant → UserGroupMembership → Bool
holds_via tenant vserver uid g m =
    m.group_id == g.principal_id
    && g.tenant_id == tenant
    && g.vserver_id == vserver
    && is_group g.principal_kind
    && is_none g.revoked_at
    && m.user_id == uid

-- `direct.union_all(via_group)`
unfoldable pub held_candidates : ℕ → ℕ → ℕ → Db → List ℕ
unfolding group_ids
held_candidates tenant vserver uid db =
    map (λ g. g.id) (keep (holds_directly tenant vserver uid) db.grants)
    ++ group_ids (holds_via tenant vserver uid) db.memberships db.grants

unfoldable pub held_grants : List ℕ → Db → List VirtualServerGrant
held_grants ids db = keep (λ g. member g.id ids) db.grants

unfoldable pub user_has_active_grant : ℕ → ℕ → ℕ → ℕ → Db → Bool
user_has_active_grant tenant vserver uid now db =
    let ids = held_candidates tenant vserver uid db in
    if is_empty ids then false else any (λ g. unexpired now g.expires_at) (held_grants ids db)

module _ (parse_uuid : String → Option ℕ) where
  check_user : ℕ → VirtualServer → ℕ → Db → Option ℕ → Result AccessDenied (Unit {0})
  check_user tenant vserver now db none = raise id_not_uuid
  check_user tenant vserver now db (some uid) =
      let ids = candidates tenant vserver.id uid db in
      if is_empty ids
      then raise no_active_grant
      else if any (λ g. unexpired now g.expires_at) (grant_rows ids db)
      then ok tt
      else raise all_expired

  unfoldable pub assert_principal_can_access_vserver :
      ℕ → VirtualServer → Principal → ℕ → Db → Result AccessDenied (Unit {0})
  unfolding check_user
  assert_principal_can_access_vserver tenant vserver principal now db =
      if is_public vserver.visibility
      then ok tt
      else if can_hold_grants principal.type
      then check_user tenant vserver now db (parse_uuid principal.id)
      else raise wrong_principal_type

-- The `where` of `direct` in tool_elevation.py.
abbrev pub elevates_directly : ℕ → ℕ → String → ℕ → ℕ → VirtualServerToolGrant → Bool
elevates_directly tenant vserver tool uid now g =
    g.tenant_id == tenant
    && g.vserver_id == vserver
    && str_eq g.exposed_tool_name tool
    && is_user g.principal_kind
    && g.principal_id == uid
    && is_none g.revoked_at
    && ltb now g.expires_at

abbrev pub elevates_via :
    ℕ → ℕ → String → ℕ → ℕ → VirtualServerToolGrant → UserGroupMembership → Bool
elevates_via tenant vserver tool uid now g m =
    m.group_id == g.principal_id
    && g.tenant_id == tenant
    && g.vserver_id == vserver
    && str_eq g.exposed_tool_name tool
    && is_group g.principal_kind
    && is_none g.revoked_at
    && ltb now g.expires_at
    && m.user_id == uid

joined_elevations :
    (VirtualServerToolGrant → UserGroupMembership → Bool)
    → List UserGroupMembership
    → List VirtualServerToolGrant
    → List ℕ
joined_elevations p ms [] = []
joined_elevations p ms (g ∷ gs) = map (λ _. g.id) (keep (p g) ms) ++ joined_elevations p ms gs

elevation_rows : ℕ → ℕ → String → ℕ → ℕ → Db → List ℕ
unfolding joined_elevations
elevation_rows tenant vserver tool uid now db =
    map (λ g. g.id) (keep (elevates_directly tenant vserver tool uid now) db.tool_grants)
    ++ joined_elevations (elevates_via tenant vserver tool uid now) db.memberships db.tool_grants

module _ (parse_uuid : String → Option ℕ) where
  elevation_of : ℕ → ℕ → String → ℕ → Db → Option ℕ → Bool
  elevation_of tenant vserver tool now db none = false
  elevation_of tenant vserver tool now db (some uid) =
      not (is_empty (elevation_rows tenant vserver tool uid now db))

  unfoldable pub has_active_tool_elevation : ℕ → ℕ → String → String → ℕ → Db → Bool
  unfolding elevation_of elevation_rows
  has_active_tool_elevation tenant vserver tool principal_id now db =
      elevation_of tenant vserver tool now db (parse_uuid principal_id)
