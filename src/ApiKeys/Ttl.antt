-- ===== src/ApiKeys/Ttl.antt =====
-- The ceiling that applies to a user, and the expiry that a key gets under it.
pub mod Joining
pub mod Expiry
use vyuu_mcp_gateway.Prelude.{
  ℕ, suc, ◌+◌, ◌-◌, ◌*◌, ◌/◌, String, Bool, true, false, not, ◌&&◌, Option, none, some, List, [],
  ◌∷◌, ◌++◌, map, keep, any, ltb, leb, ◌==◌, Result, ok, raise, if◌then◌else◌, Eq, nat_eq, text_eq,
  pair_eq,
}
use vyuu_mcp_gateway.Dict.{Dict, get, put}
use vyuu_mcp_gateway.Tables.{UserGroupMembership, Db, seconds}
use vyuu_mcp_gateway.ApiKeys.{
  ApiKeyPrincipalKind, tenant_kind, group_kind, user_kind, kind_value, ApiKeyPolicy, Group,
  KeyTables, ApiKeyPolicyError, already_past, above_maximum, above_policy,
}

abbrev pub maximum_ttl_seconds : ℕ
maximum_ttl_seconds = 31536000

-- `max_ttl_seconds` is `none` where the lifetime is unlimited.
pub record ResolvedTtl : Type 0 where
  pub max_ttl_seconds : Option ℕ
  pub source_kind : Option ApiKeyPrincipalKind
  pub source_id : Option ℕ

abbrev pub unlimited : ResolvedTtl
unlimited = record { max_ttl_seconds = none; source_kind = none; source_id = none }

abbrev pub limited : ApiKeyPrincipalKind → ℕ → ApiKeyPolicy → ResolvedTtl
limited kind id p = record {
  max_ttl_seconds = some p.max_ttl_seconds;
  source_kind = some kind;
  source_id = some id;
}

-- `ResolvedTtl.expires_at(now=now)`
abbrev pub expires_at : ResolvedTtl → ℕ → Option ℕ
expires_at resolved now = elim resolved.max_ttl_seconds [
  | none ↦ none
  | some n ↦ some (now + seconds n)
]

abbrev pub Scopes : Type 0
Scopes = Dict (String × ℕ) ApiKeyPolicy

abbrev pub scope_of : ApiKeyPolicy → String × ℕ
scope_of p = (kind_value p.principal_kind, p.principal_id)

-- {(str(p.principal_kind), p.principal_id): p for p in policies}, into `d`
unfoldable pub scopes_into : Scopes → List ApiKeyPolicy → Scopes
unfolding put
scopes_into d [] = d
scopes_into d (p ∷ ps) = scopes_into (put d (scope_of p) p) ps

abbrev pub policies_of : ℕ → KeyTables → List ApiKeyPolicy
policies_of tenant db = keep (λ p. p.tenant_id == tenant) db.policies

abbrev pub is_group_of : ℕ → ℕ → Group → Bool
is_group_of tenant id g = g.id == id && g.tenant_id == tenant

-- The group ids of the join; the set is a list, in the order of the rows.
abbrev pub joined_groups : ℕ → ℕ → List Group → List UserGroupMembership → List ℕ
joined_groups tenant uid groups [] = []
joined_groups tenant uid groups (m ∷ ms) =
    let rest = joined_groups tenant uid groups ms in
    if m.user_id == uid && any (is_group_of tenant m.group_id) groups
    then m.group_id ∷ rest
    else rest

abbrev pub add_hit : Option ApiKeyPolicy → List ApiKeyPolicy → List ApiKeyPolicy
add_hit none rest = rest
add_hit (some p) rest = p ∷ rest

-- The policies of those groups that have one.
unfoldable pub group_hits : Scopes → List ℕ → List ApiKeyPolicy
unfolding get
group_hits by_scope [] = []
group_hits by_scope (gid ∷ gids) =
    add_hit (get by_scope (kind_value group_kind, gid)) (group_hits by_scope gids)

-- min(..., key=lambda p: p.max_ttl_seconds), over `p` and the others
unfoldable pub tightest_of : ApiKeyPolicy → List ApiKeyPolicy → ApiKeyPolicy
tightest_of p [] = p
tightest_of p (q ∷ qs) = tightest_of (if ltb q.max_ttl_seconds p.max_ttl_seconds then q else p) qs

abbrev pub of_tenant : ℕ → Option ApiKeyPolicy → ResolvedTtl
of_tenant tenant none = unlimited
of_tenant tenant (some p) = limited tenant_kind tenant p

abbrev pub of_groups : ℕ → Scopes → List ApiKeyPolicy → ResolvedTtl
of_groups tenant by_scope [] = of_tenant tenant (get by_scope (kind_value tenant_kind, tenant))
of_groups tenant by_scope (p ∷ ps) =
    let tightest = tightest_of p ps in limited group_kind tightest.principal_id tightest

abbrev pub of_user : ℕ → ℕ → Scopes → List ℕ → Option ApiKeyPolicy → ResolvedTtl
of_user tenant uid by_scope gids (some p) = limited user_kind uid p
of_user tenant uid by_scope gids none = of_groups tenant by_scope (group_hits by_scope gids)

abbrev pub resolve_in : ℕ → ℕ → Scopes → List ℕ → ResolvedTtl
resolve_in tenant uid by_scope gids =
    of_user tenant uid by_scope gids (get by_scope (kind_value user_kind, uid))

-- The ceiling from the policies of the tenant and the groups of the user.
unfoldable pub resolve_with : ℕ → ℕ → List ℕ → List ApiKeyPolicy → ResolvedTtl
unfolding scopes_into group_hits tightest_of get
resolve_with tenant uid gids [] = unlimited
resolve_with tenant uid gids (p ∷ ps) = resolve_in tenant uid (scopes_into [] (p ∷ ps)) gids

unfoldable pub resolve_max_ttl : ℕ → ℕ → KeyTables → ResolvedTtl
unfolding resolve_with
resolve_max_ttl tenant uid db =
    resolve_with tenant uid (joined_groups tenant uid db.groups db.base.memberships)
      (policies_of tenant db)

abbrev pub above : ℕ → Option ℕ → Bool
above n none = false
above n (some limit) = ltb limit n

abbrev limit_or_zero : Option ℕ → ℕ
limit_or_zero none = 0
limit_or_zero (some n) = n

-- int((requested - moment).total_seconds())
abbrev pub requested_seconds : ℕ → ℕ → ℕ
requested_seconds requested moment = (requested - moment) / 1000000

unfoldable pub enforce_requested_expiry :
    ResolvedTtl → Option ℕ → ℕ → Result ApiKeyPolicyError (Option ℕ)
enforce_requested_expiry resolved none moment = ok (expires_at resolved moment)
enforce_requested_expiry resolved (some requested) moment =
    let asked = requested_seconds requested moment in
    if leb requested moment
    then raise already_past
    else if ltb maximum_ttl_seconds asked
    then raise (above_maximum asked)
    else if above asked resolved.max_ttl_seconds
    then raise (above_policy asked (limit_or_zero resolved.max_ttl_seconds))
    else ok (some requested)
