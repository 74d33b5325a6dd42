-- ===== src/Providers/Management.antt =====
-- `ManagementPlanePolicyProvider`. What the management plane answers, already parsed and checked by
-- pydantic, is an argument of each call, as is the reading of the monotonic clock.
pub mod Fresh
use vyuu_mcp_gateway.Prelude.{
  ℕ, ◌+◌, String, Bool, true, false, not, ◌&&◌, Option, none, some, List, [], ◌∷◌, any, find, ltb,
  ◌==◌, str_eq, Result, ok, raise, ◌>>=◌, if◌then◌else◌, Eq, nat_eq, pair_eq,
}
use vyuu_mcp_gateway.Dict.{Dict, get, put}
use vyuu_mcp_gateway.ToolCalls.{PolicyDecision, deny, reason_tool_denied, ResolvedTool}

pub data Effect : Type 0 where
  allows denies : Effect

pub record ManagementPolicyRule : Type 0 where
  pub id : String
  pub effect : Effect
  pub tools : Option (List String)
  pub upstream_tools : Option (List String)
  pub upstream_server_ids : Option (List ℕ)

pub record ManagementPolicyDocument : Type 0 where
  pub policy_id : ℕ
  pub version : String
  pub default_decision : Effect
  pub rules : List ManagementPolicyRule

pub record _CacheEntry : Type 0 where
  pub policy : ManagementPolicyDocument
  pub expires_at : ℕ

abbrev pub Cache : Type 0
Cache = Dict (ℕ × ℕ) _CacheEntry

-- A context, without the arguments, which this provider does not read.
pub record Context : Type 0 where
  pub tenant_id : ℕ
  pub tool : ResolvedTool
  pub policy_id : Option ℕ

abbrev excludes : {A : Type 0} → (A → Bool) → Option (List A) → Bool
excludes is_it none = false
excludes is_it (some xs) = not (any is_it xs)

unfoldable pub _matches_rule : ManagementPolicyRule → ResolvedTool → Bool
_matches_rule rule tool =
    if excludes (str_eq tool.exposed_name) rule.tools
    then false
    else if excludes (str_eq tool.upstream_tool_name) rule.upstream_tools
    then false
    else not (excludes (λ id. tool.upstream_server_id == id) rule.upstream_server_ids)

abbrev pub _first_matching_rule :
    ManagementPolicyDocument → ResolvedTool → Option ManagementPolicyRule
_first_matching_rule policy tool = find (λ rule. _matches_rule rule tool) policy.rules

-- PolicyDecision.allow(rule_id=...) and PolicyDecision.deny(..., rule_id=...)
abbrev pub allow_by : String → PolicyDecision
allow_by rule_id = record {
  is_allowed = true;
  reason = none;
  message = none;
  rule_id = some rule_id;
  capture_raw_args = false;
  capture_raw_response = false;
}

abbrev pub deny_by : String → String → PolicyDecision
deny_by message rule_id = record (deny reason_tool_denied message) { rule_id = some rule_id }

abbrev by_rule : ManagementPolicyRule → Effect → PolicyDecision
by_rule rule allows = allow_by rule.id
by_rule rule denies = deny_by "tool is denied by management-plane policy" rule.id

abbrev by_default : Effect → PolicyDecision
by_default allows = allow_by "default_allow"
by_default denies = deny_by "tool is denied by management-plane policy default" "default_deny"

abbrev pub decided : ManagementPolicyDocument → Option ManagementPolicyRule → PolicyDecision
decided policy none = by_default policy.default_decision
decided policy (some rule) = by_rule rule rule.effect

-- The decision of a policy on a tool.
unfoldable pub decide : ManagementPolicyDocument → ResolvedTool → PolicyDecision
unfolding _matches_rule
decide policy tool = decided policy (_first_matching_rule policy tool)

-- `serve` is the answer to the request of a tenant's policy, or the name of the exception's class.
abbrev pub Serve : Type 0
Serve = ℕ → ℕ → Result String ManagementPolicyDocument

abbrev same_policy : ℕ → ManagementPolicyDocument → Result String ManagementPolicyDocument
same_policy policy_id policy =
    if policy.policy_id == policy_id then ok policy else raise "policy_id_mismatch"

unfoldable pub _fetch_policy : Serve → ℕ → ℕ → Result String ManagementPolicyDocument
_fetch_policy serve tenant policy_id = serve tenant policy_id >>= same_policy policy_id

abbrev pub live : ℕ → Option _CacheEntry → Option _CacheEntry
live now none = none
live now (some entry) = if ltb now entry.expires_at then some entry else none

abbrev pub fetched :
    ℕ
    → ℕ
    → ℕ × ℕ
    → Cache
    → Result String ManagementPolicyDocument
    → Cache × Result String ManagementPolicyDocument
fetched ttl now key cache (raise e) = (cache, raise e)
fetched ttl now key cache (ok policy) =
    (put cache key (record { policy = policy; expires_at = now + ttl }), ok policy)

abbrev pub cached_or_fetched :
    ℕ
    → ℕ
    → Serve
    → ℕ × ℕ
    → Cache
    → Option _CacheEntry
    → Cache × Result String ManagementPolicyDocument
cached_or_fetched ttl now serve key cache (some entry) = (cache, ok entry.policy)
cached_or_fetched ttl now serve key cache none =
    fetched ttl now key cache (_fetch_policy serve key.0 key.1)

unfoldable pub _get_policy :
    ℕ → ℕ → Serve → ℕ → ℕ → Cache → Cache × Result String ManagementPolicyDocument
unfolding get put _fetch_policy
_get_policy ttl now serve tenant policy_id cache =
    cached_or_fetched ttl now serve (tenant, policy_id) cache
      (live now (get cache (tenant, policy_id)))

abbrev pub on_policy :
    ResolvedTool
    → Cache × Result String ManagementPolicyDocument
    → Cache × Result String PolicyDecision
on_policy tool (cache, raise e) = (cache, raise e)
on_policy tool (cache, ok policy) = (cache, ok (decide policy tool))

abbrev pub evaluate_for :
    ℕ → ℕ → Serve → Context → Option ℕ → Cache → Cache × Result String PolicyDecision
evaluate_for ttl now serve context none cache =
    (cache, ok (deny_by "virtual server has no policy attached" "missing_policy_id"))
evaluate_for ttl now serve context (some policy_id) cache =
    on_policy context.tool (_get_policy ttl now serve context.tenant_id policy_id cache)

unfoldable pub evaluate_tool_call :
    ℕ → ℕ → Serve → Context → Cache → Cache × Result String PolicyDecision
unfolding _get_policy decide
evaluate_tool_call ttl now serve context cache =
    evaluate_for ttl now serve context context.policy_id cache
