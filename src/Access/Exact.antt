-- ===== src/Access/Exact.antt =====
-- Who may reach a virtual server: the queries of access.py, and of the duplicate in
-- access_requests_service.py, against a description of the grants that entitle a user.
use vyuu_mcp_gateway.Prelude.{
  ℕ, String, Bool, refl, ap, ◌∙◌, ◌++◌, ◌≡◌, ◌↔◌, ◌⊎◌, inl, inr, sym, true, Option, none, some,
  List, map, keep, Memᴰ, ok, any_sound, any_complete, keep_sound, keep_complete, append_left,
  append_right, append_sound, map_sound, map_complete, arith,
}
use mathlib.Core.Path.{fun_ext}
use vyuu_mcp_gateway.Tables.{
  VirtualServer, VirtualServerGrant, UserGroupMembership, Db, user, group, public, private,
  unexpired, member,
}
use vyuu_mcp_gateway.Access.{
  Principal, can_hold_grants, grants_directly, grants_via, holds_directly, holds_via, group_ids,
  candidates, grant_rows, held_candidates, held_grants, user_has_active_grant,
  assert_principal_can_access_vserver,
}
use vyuu_mcp_gateway.Access.Rows.{
  DistinctIds, same_row, member_sound, member_complete, nonempty, group_ids_sound,
  group_ids_complete,
}

-- The grant names the user, or a group that the user is a member of.
pub data Targets (uid : ℕ) (db : Db) (g : VirtualServerGrant) : Type 0 where
  itself : g.principal_kind ≡ user → g.principal_id ≡ uid → Targets uid db g
  through :
      (m : UserGroupMembership)
      → g.principal_kind ≡ group
      → Memᴰ m db.memberships
      → m.user_id ≡ uid
      → m.group_id ≡ g.principal_id
      → Targets uid db g

-- The grant counts at this instant.
pub record IsLive (tenant vserver now : ℕ) (g : VirtualServerGrant) : Type 0 where
  pub same_tenant : g.tenant_id ≡ tenant
  pub same_vserver : g.vserver_id ≡ vserver
  pub not_revoked : g.revoked_at ≡ none
  pub not_expired : unexpired now g.expires_at ≡ true

-- Some live grant for the virtual server targets the user.
abbrev pub Entitled : ℕ → ℕ → ℕ → ℕ → Db → Type 0
Entitled tenant vserver uid now db =
    (g : VirtualServerGrant) × Memᴰ g db.grants × IsLive tenant vserver now g × Targets uid db g

module _ (tenant vserver uid now : ℕ) (db : Db) where
  -- A candidate row, once its id is known to be that of one row only.
  Candidate : VirtualServerGrant → Type 0
  Candidate g =
      (g.tenant_id ≡ tenant) × (g.vserver_id ≡ vserver) × (g.revoked_at ≡ none) × Targets uid db g

  Candidate-direct :
      (g : VirtualServerGrant) → holds_directly tenant vserver uid g ≡ true → Candidate g
  unfolding Candidate
  Candidate-direct g h =
      (ground arith, ground arith, ground arith, itself (ground arith) (ground arith))

  Candidate-via :
      (g : VirtualServerGrant) (m : UserGroupMembership)
      → Memᴰ m db.memberships
      → holds_via tenant vserver uid g m ≡ true
      → Candidate g
  unfolding Candidate
  Candidate-via g m i h = (
    ground arith,
    ground arith,
    ground arith,
    through m (ground arith) i (ground arith) (ground arith),
  )

  candidates_sound :
      {a : ℕ}
      → Memᴰ a (held_candidates tenant vserver uid db)
      → (g : VirtualServerGrant) × Memᴰ g db.grants × (a ≡ g.id) × Candidate g
  unfolding held_candidates
  candidates_sound h =
      elim (append_sound _ (group_ids (holds_via tenant vserver uid) db.memberships db.grants) h) [
        | inl l ↦
            let (g, i, e) =
              map_sound (λ (x : VirtualServerGrant). x.id)
                (keep (holds_directly tenant vserver uid) db.grants) l in
            let (j, q) = keep_sound (holds_directly tenant vserver uid) db.grants i in
            (g, j, e, Candidate-direct g q)
        | inr r ↦
            let (g, i, e, (m, j, q)) =
              group_ids_sound (holds_via tenant vserver uid) db.memberships db.grants r in
            (g, i, e, Candidate-via g m j q)
      ]

  candidates_complete :
      (g : VirtualServerGrant)
      → Memᴰ g db.grants
      → IsLive tenant vserver now g
      → Targets uid db g
      → Memᴰ g.id (held_candidates tenant vserver uid db)
  unfolding held_candidates
  candidates_complete g i live (itself k e) = append_left _ _ (
      map_complete (λ (x : VirtualServerGrant). x.id)
        (keep (holds_directly tenant vserver uid) db.grants)
        (keep_complete (holds_directly tenant vserver uid) db.grants i (ground arith)))
  candidates_complete g i live (through m k j u e) =
      append_right
        (map (λ (x : VirtualServerGrant). x.id)
          (keep (holds_directly tenant vserver uid) db.grants))
        _
        (group_ids_complete (holds_via tenant vserver uid) db.memberships db.grants i j
          (ground arith))

  active_sound :
      DistinctIds db.grants
      → user_has_active_grant tenant vserver uid now db ≡ true
      → Entitled tenant vserver uid now db
  unfolding user_has_active_grant held_grants Candidate
  active_sound keyed h =
      let ids : List ℕ = held_candidates tenant vserver uid db in
      let (g, i, live) =
        any_sound (λ g. unexpired now g.expires_at) (keep (λ g. member g.id ids) db.grants)
          (ground arith) in
      let (j, listed) = keep_sound (λ g. member g.id ids) db.grants i in
      let (f, k, e, (t, v, r, target)) = candidates_sound (member_sound g.id ids listed) in
      let same = same_row db.grants keyed k j (sym e) in
      (
        f,
        k,
        record { same_tenant = t; same_vserver = v; not_revoked = r; not_expired = rw same live },
        target,
      )

  active_complete :
      Entitled tenant vserver uid now db → user_has_active_grant tenant vserver uid now db ≡ true
  unfolding user_has_active_grant held_grants
  active_complete (g, i, live, target) =
      let ids : List ℕ = held_candidates tenant vserver uid db in
      let listed = candidates_complete g i live target in
      let row =
        keep_complete (λ g. member g.id ids) db.grants i (member_complete g.id ids listed) in
      ground (
        arith,
        any_complete (λ g. unexpired now g.expires_at) (keep (λ g. member g.id ids) db.grants) row
            live.not_expired,
        nonempty ids listed,
      )

-- Where ids are distinct, `_user_has_active_grant` answers true exactly when some unrevoked and
-- unexpired grant of the tenant for the virtual server names the user or a group of the user.
pub user_has_active_grant_exact :
    (tenant vserver uid now : ℕ) (db : Db)
    → DistinctIds db.grants
    → (user_has_active_grant tenant vserver uid now db ≡ true) ↔ Entitled tenant vserver uid now db
user_has_active_grant_exact tenant vserver uid now db keyed =
    (active_sound tenant vserver uid now db keyed, active_complete tenant vserver uid now db)

-- The two queries put their conditions in different orders, and find the same grants.
same_direct :
    (tenant vserver uid : ℕ) (g : VirtualServerGrant)
    → grants_directly tenant vserver uid g ≡ holds_directly tenant vserver uid g
same_direct tenant vserver uid g = ground arith

same_via :
    (tenant vserver uid : ℕ) (g : VirtualServerGrant) (m : UserGroupMembership)
    → grants_via tenant vserver uid g m ≡ holds_via tenant vserver uid g m
same_via tenant vserver uid g m = ground arith

same_candidates :
    (tenant vserver uid : ℕ) (db : Db)
    → candidates tenant vserver uid db ≡ held_candidates tenant vserver uid db
unfolding candidates held_candidates
same_candidates tenant vserver uid db =
    ap
      (λ (p : VirtualServerGrant → Bool).
        map (λ g. g.id) (keep p db.grants)
        ++ group_ids (grants_via tenant vserver uid) db.memberships db.grants)
      (fun_ext (same_direct tenant vserver uid))
    ∙ ap
        (λ (q : VirtualServerGrant → UserGroupMembership → Bool).
          map (λ g. g.id) (keep (holds_directly tenant vserver uid) db.grants)
          ++ group_ids q db.memberships db.grants)
        (fun_ext λ g. fun_ext (same_via tenant vserver uid g))

same_rows : (ids : List ℕ) (db : Db) → grant_rows ids db ≡ held_grants ids db
unfolding grant_rows held_grants
same_rows ids db = refl

module _ (parse_uuid : String → Option ℕ) where
  -- On a private virtual server, for a principal of a type that can hold grants whose id is a
  -- user's, the inbound check with its own query admits exactly when `_user_has_active_grant` with
  -- its own answers true, whatever the tables hold.
  pub access_mirrors :
      (tenant uid now : ℕ) (vserver : VirtualServer) (principal : Principal) (db : Db)
      → vserver.visibility ≡ private
      → can_hold_grants principal.type ≡ true
      → parse_uuid principal.id ≡ some uid
      → (assert_principal_can_access_vserver parse_uuid tenant vserver principal now db ≡ ok tt)
        ↔ (user_has_active_grant tenant vserver.id uid now db ≡ true)
  unfolding assert_principal_can_access_vserver user_has_active_grant
  access_mirrors tenant uid now vserver principal db p t i = ground (
    arith,
    same_candidates tenant vserver.id uid db,
    same_rows (held_candidates tenant vserver.id uid db) db,
  )

  admitted_cases :
      (tenant now : ℕ) (vserver : VirtualServer) (principal : Principal) (db : Db)
      → assert_principal_can_access_vserver parse_uuid tenant vserver principal now db ≡ ok tt
      → (vserver.visibility ≡ public)
        ⊎ ((vserver.visibility ≡ private)
            × (can_hold_grants principal.type ≡ true)
            × ((uid : ℕ) × (parse_uuid principal.id ≡ some uid)))
  unfolding assert_principal_can_access_vserver
  admitted_cases tenant now vserver principal db h = ground arith

  admits_public :
      (tenant now : ℕ) (vserver : VirtualServer) (principal : Principal) (db : Db)
      → vserver.visibility ≡ public
      → assert_principal_can_access_vserver parse_uuid tenant vserver principal now db ≡ ok tt
  unfolding assert_principal_can_access_vserver
  admits_public tenant now vserver principal db h = ground arith

  admits_active :
      (tenant uid now : ℕ) (vserver : VirtualServer) (principal : Principal) (db : Db)
      → can_hold_grants principal.type ≡ true
      → parse_uuid principal.id ≡ some uid
      → user_has_active_grant tenant vserver.id uid now db ≡ true
      → assert_principal_can_access_vserver parse_uuid tenant vserver principal now db ≡ ok tt
  unfolding assert_principal_can_access_vserver user_has_active_grant
  admits_active tenant uid now vserver principal db t i h = ground (
    arith,
    same_candidates tenant vserver.id uid db,
    same_rows (held_candidates tenant vserver.id uid db) db,
  )

  -- Where ids are distinct, the inbound check admits a principal exactly when the virtual server is
  -- public, or the principal's type can hold grants, its id is a user's, and some unrevoked and
  -- unexpired grant of the tenant for the virtual server names the user or a group of the user.
  pub access_exact :
      (tenant now : ℕ) (vserver : VirtualServer) (principal : Principal) (db : Db)
      → DistinctIds db.grants
      → (assert_principal_can_access_vserver parse_uuid tenant vserver principal now db ≡ ok tt) ↔ (
          (vserver.visibility ≡ public)
          ⊎ ((can_hold_grants principal.type ≡ true)
              × ((uid : ℕ) × (parse_uuid principal.id ≡ some uid)
                  × Entitled tenant vserver.id uid now db)))
  access_exact tenant now vserver principal db keyed = (
    λ admitted. elim (admitted_cases tenant now vserver principal db admitted) [
      | inl open_to_all ↦ inl open_to_all
      | inr (closed_to_most, may_hold, (uid, id_is_user)) ↦
          let same =
            access_mirrors tenant uid now vserver principal db closed_to_most may_hold id_is_user in
          inr (
            may_hold,
            (uid, id_is_user, active_sound tenant vserver.id uid now db keyed (same.0 admitted)),
          )
    ],
    λ reason. elim reason [
      | inl open_to_all ↦ admits_public tenant now vserver principal db open_to_all
      | inr (may_hold, (uid, id_is_user, entitled)) ↦
          admits_active tenant uid now vserver principal db may_hold id_is_user
            (active_complete tenant vserver.id uid now db entitled)
    ],
  )
