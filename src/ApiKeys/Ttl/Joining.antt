-- ===== src/ApiKeys/Ttl/Joining.antt =====
-- What joining a group does to the ceiling of a user.
use vyuu_mcp_gateway.Prelude.{
  ℕ, ◌≤◌, true, ◌&&◌, Option, none, some, List, [], ◌∷◌, any, ltb, ◌==◌, ◌≡◌, ◌≢◌, refl, arith, inl,
  inr, Bool-cases, if◌then◌else◌, nat_eq, text_eq, pair_eq,
}
use vyuu_mcp_gateway.Dict.{get}
use vyuu_mcp_gateway.ApiKeys.{tenant_kind, group_kind, kind_value, ApiKeyPolicy, KeyTables}
use vyuu_mcp_gateway.ApiKeys.Ttl.{
  ResolvedTtl, Scopes, scopes_into, policies_of, is_group_of, joined_groups, add_hit, group_hits,
  tightest_of, of_tenant, of_groups, of_user, resolve_with, resolve_max_ttl,
}

-- The tables after the user has joined the group.
abbrev pub join : ℕ → ℕ → KeyTables → KeyTables
join uid gid db = record db {
  base = record (db.base) {
    memberships = record { user_id = uid; group_id = gid } ∷ db.base.memberships;
  };
}

tightest_of_mono :
    (qs : List ApiKeyPolicy) (a b : ApiKeyPolicy)
    → a.max_ttl_seconds ≤ b.max_ttl_seconds
    → (tightest_of a qs).max_ttl_seconds ≤ (tightest_of b qs).max_ttl_seconds
unfolding tightest_of
tightest_of_mono [] a b h = h
tightest_of_mono (q ∷ qs) a b h = tightest_of_mono qs _ _ tighter
  where
    tighter :
        (if ltb q.max_ttl_seconds a.max_ttl_seconds then q else a).max_ttl_seconds
        ≤ (if ltb q.max_ttl_seconds b.max_ttl_seconds then q else b).max_ttl_seconds
    tighter = ground arith

tightest_of_first :
    (q p : ApiKeyPolicy) (ps : List ApiKeyPolicy)
    → (tightest_of q (p ∷ ps)).max_ttl_seconds ≤ (tightest_of p ps).max_ttl_seconds
unfolding tightest_of
tightest_of_first q p ps = tightest_of_mono ps _ p tighter
  where
    tighter :
        (if ltb p.max_ttl_seconds q.max_ttl_seconds then p else q).max_ttl_seconds
        ≤ p.max_ttl_seconds
    tighter = ground arith

of_tenant-kind :
    (tenant : ℕ) (o : Option ApiKeyPolicy) → (of_tenant tenant o).source_kind ≢ some group_kind
of_tenant-kind tenant none h = absurd (ground arith)
of_tenant-kind tenant (some p) h = absurd (ground arith)

abbrev Within : ResolvedTtl → ℕ → Type 0
Within r n = (m : ℕ) × (r.max_ttl_seconds ≡ some m) × (m ≤ n)

of_groups-add_hit :
    (tenant : ℕ) (by_scope : Scopes) (hits : List ApiKeyPolicy) (extra : Option ApiKeyPolicy)
    (n : ℕ)
    → (of_groups tenant by_scope hits).source_kind ≡ some group_kind
    → (of_groups tenant by_scope hits).max_ttl_seconds ≡ some n
    → Within (of_groups tenant by_scope (add_hit extra hits)) n
of_groups-add_hit tenant by_scope [] extra n kind ttl = absurd (of_tenant-kind tenant _ kind)
of_groups-add_hit tenant by_scope (p ∷ ps) none n kind ttl = (n, ttl, omega arith)
of_groups-add_hit tenant by_scope (p ∷ ps) (some q) n kind ttl =
    (_, refl, ground (arith, ttl, tightest_of_first q p ps))

of_user-joined :
    (tenant uid gid : ℕ) (by_scope : Scopes) (gids : List ℕ) (own : Option ApiKeyPolicy) (n : ℕ)
    → (of_user tenant uid by_scope gids own).source_kind ≡ some group_kind
    → (of_user tenant uid by_scope gids own).max_ttl_seconds ≡ some n
    → Within (of_user tenant uid by_scope (gid ∷ gids) own) n
unfolding group_hits
of_user-joined tenant uid gid by_scope gids (some p) n kind ttl = absurd (ground arith)
of_user-joined tenant uid gid by_scope gids none n kind ttl =
    of_groups-add_hit tenant by_scope (group_hits by_scope gids)
      (get by_scope (kind_value group_kind, gid)) n kind ttl

resolve_with-joined :
    (tenant uid gid : ℕ) (gids : List ℕ) (ps : List ApiKeyPolicy) (n : ℕ)
    → (resolve_with tenant uid gids ps).source_kind ≡ some group_kind
    → (resolve_with tenant uid gids ps).max_ttl_seconds ≡ some n
    → Within (resolve_with tenant uid (gid ∷ gids) ps) n
unfolding resolve_with
resolve_with-joined tenant uid gid gids [] n kind ttl = absurd (ground arith)
resolve_with-joined tenant uid gid gids (p ∷ ps) n kind ttl =
    of_user-joined tenant uid gid (scopes_into [] (p ∷ ps)) gids _ n kind ttl

-- While the ceiling of a user comes from a group, joining another group, of whatever tenant and with
-- whatever policy, gives a ceiling that is not longer.
pub joining_tightens :
    (tenant uid gid : ℕ) (db : KeyTables) (n : ℕ)
    → (resolve_max_ttl tenant uid db).source_kind ≡ some group_kind
    → (resolve_max_ttl tenant uid db).max_ttl_seconds ≡ some n
    → (m : ℕ) × ((resolve_max_ttl tenant uid (join uid gid db)).max_ttl_seconds ≡ some m) × (m ≤ n)
unfolding resolve_max_ttl
joining_tightens tenant uid gid db n kind ttl =
    elim (Bool-cases (uid == uid && any (is_group_of tenant gid) db.groups)) [
      | inl joined ↦
          rw (resolve_max_ttl, joined)
            (resolve_with-joined tenant uid gid
              (joined_groups tenant uid db.groups db.base.memberships) (policies_of tenant db) n
              kind ttl)
      | inr foreign ↦ rw (resolve_max_ttl, foreign) (n, ttl, omega arith)
    ]

of_groups-first :
    (tenant : ℕ) (by_scope : Scopes) (hits : List ApiKeyPolicy) (p : ApiKeyPolicy)
    → (of_groups tenant by_scope hits).source_kind ≡ some tenant_kind
    → (of_groups tenant by_scope (p ∷ hits)).max_ttl_seconds ≡ some p.max_ttl_seconds
unfolding tightest_of
of_groups-first tenant by_scope [] p kind = refl
of_groups-first tenant by_scope (q ∷ qs) p kind = absurd (ground arith)

of_user-first :
    (tenant uid gid : ℕ) (by_scope : Scopes) (gids : List ℕ) (own : Option ApiKeyPolicy)
    (p : ApiKeyPolicy)
    → get by_scope (kind_value group_kind, gid) ≡ some p
    → (of_user tenant uid by_scope gids own).source_kind ≡ some tenant_kind
    → (of_user tenant uid by_scope (gid ∷ gids) own).max_ttl_seconds ≡ some p.max_ttl_seconds
unfolding group_hits
of_user-first tenant uid gid by_scope gids (some q) p hit kind = absurd (ground arith)
of_user-first tenant uid gid by_scope gids none p hit kind =
    rw (group_hits, hit) (of_groups-first tenant by_scope (group_hits by_scope gids) p kind)

resolve_with-first :
    (tenant uid gid : ℕ) (gids : List ℕ) (ps : List ApiKeyPolicy) (p : ApiKeyPolicy)
    → get (scopes_into [] ps) (kind_value group_kind, gid) ≡ some p
    → (resolve_with tenant uid gids ps).source_kind ≡ some tenant_kind
    → (resolve_with tenant uid (gid ∷ gids) ps).max_ttl_seconds ≡ some p.max_ttl_seconds
unfolding resolve_with
resolve_with-first tenant uid gid gids [] p hit kind = absurd (ground arith)
resolve_with-first tenant uid gid gids (q ∷ qs) p hit kind =
    of_user-first tenant uid gid (scopes_into [] (q ∷ qs)) gids _ p hit kind

-- While the ceiling of a user comes from the tenant, joining a group of the tenant that has a policy
-- gives the group's ceiling, whether it is shorter or longer.
pub joining_replaces :
    (tenant uid gid : ℕ) (db : KeyTables) (p : ApiKeyPolicy)
    → any (is_group_of tenant gid) db.groups ≡ true
    → get (scopes_into [] (policies_of tenant db)) (kind_value group_kind, gid) ≡ some p
    → (resolve_max_ttl tenant uid db).source_kind ≡ some tenant_kind
    → (resolve_max_ttl tenant uid (join uid gid db)).max_ttl_seconds ≡ some p.max_ttl_seconds
unfolding resolve_max_ttl
joining_replaces tenant uid gid db p known hit kind =
    rw (resolve_max_ttl, joined)
      (resolve_with-first tenant uid gid (joined_groups tenant uid db.groups db.base.memberships)
        (policies_of tenant db) p hit kind)
  where
    joined : (uid == uid && any (is_group_of tenant gid) db.groups) ≡ true
    joined = ground (arith, known)
