-- ===== src/ApiKeys/Policies.antt =====
-- The operators' side: setting and deleting a policy, and the keys that were issued before it.
pub mod Conform
use vyuu_mcp_gateway.Prelude.{
  ℕ, zero, suc, ◌+◌, ℤ, pos, is_nonpositive, exceeds, to_ℕ, String, Bool, true, false, not, ◌&&◌,
  Option, none, some, List, [], ◌∷◌, map, keep, find, any, length, ltb, ◌==◌, str_eq, Result, ok,
  raise, ◌>>=◌, ◌>>◌, raise_if, if◌then◌else◌,
}
use vyuu_mcp_gateway.Prelude.Decimal.{decimal}
use vyuu_mcp_gateway.Tables.{
  Db, AdminAuditActor, AdminAuditTarget, DetailValue, null, text, ident, number, names, or_null,
  is_none, record_admin_action, record_action, seconds,
}
use vyuu_mcp_gateway.ApiKeys.{
  ApiKeyPrincipalKind, tenant_kind, group_kind, user_kind, kind_value, ApiKeyPolicy, UserApiKey,
  KeyTables, ApiKeyPolicyError, not_positive, above_limit, not_own_tenant, policy_not_found,
}
use vyuu_mcp_gateway.ApiKeys.Ttl.{maximum_ttl_seconds, ResolvedTtl, resolve_max_ttl}

abbrev pub is_tenant_kind : ApiKeyPrincipalKind → Bool
is_tenant_kind tenant_kind = true
is_tenant_kind _ = false

abbrev pub in_scope : ℕ → ApiKeyPrincipalKind → ℕ → ApiKeyPolicy → Bool
in_scope tenant kind id p =
    p.tenant_id == tenant
    && (str_eq (kind_value p.principal_kind) (kind_value kind) && p.principal_id == id)

-- The first row that passes is changed: `existing` is an object of the session.
unfoldable pub update_first : {A : Type 0} → (A → Bool) → (A → A) → List A → List A
update_first p f [] = []
update_first p f (x ∷ xs) = let rest = update_first p f xs in if p x then f x ∷ xs else x ∷ rest

abbrev renewed : ℕ → Option String → ℕ → ApiKeyPolicy → ApiKeyPolicy
renewed ttl note now p = record p { max_ttl_seconds = ttl; note = note; updated_at = now }

-- The row is there: it is changed in place; or a new row joins.
abbrev set_policy :
    (ApiKeyPolicy → Bool)
    → ApiKeyPolicy
    → Option ApiKeyPolicy
    → List ApiKeyPolicy
    → List ApiKeyPolicy
set_policy here row none policies = row ∷ policies
set_policy here row (some _) policies =
    update_first here (renewed row.max_ttl_seconds row.note row.updated_at) policies

-- `fresh_id` is `uuid4()`, `now` the clock's reading.
unfoldable pub upsert_policy :
    ℕ
    → ℕ
    → ℕ
    → ApiKeyPrincipalKind
    → ℕ
    → ℤ
    → Option String
    → ℕ
    → AdminAuditActor
    → KeyTables
    → Result ApiKeyPolicyError KeyTables
unfolding update_first
upsert_policy fresh_id now tenant kind id ttl comment created_by actor db = do
  raise_if (is_nonpositive ttl) not_positive
  raise_if (exceeds ttl maximum_ttl_seconds) above_limit
  raise_if (is_tenant_kind kind && not (id == tenant)) not_own_tenant
  ok (record db {
    policies = set_policy here row existing db.policies;
    base = record_admin_action tenant actor "api_key_policy.set" target detail db.base;
  })
  where
    here : ApiKeyPolicy → Bool
    here = in_scope tenant kind id

    existing : Option ApiKeyPolicy
    existing = find here db.policies

    row : ApiKeyPolicy
    row = record {
      id = fresh_id;
      tenant_id = tenant;
      principal_kind = kind;
      principal_id = id;
      max_ttl_seconds = to_ℕ ttl;
      note = comment;
      created_by = created_by;
      updated_at = now;
    }

    target : AdminAuditTarget
    target = record { kind = "api_key_policy"; id = some id; display = some (kind_value kind) }

    detail : List (String × DetailValue)
    detail =
        ("principal_kind", text (kind_value kind))
        ∷ ("principal_id", ident id)
        ∷ ("max_ttl_seconds", number (to_ℕ ttl))
        ∷ ("previous_max_ttl_seconds", or_null (λ p. number p.max_ttl_seconds) existing)
        ∷ ("note", or_null text comment)
        ∷ []

abbrev pub has_id : ℕ → ℕ → ApiKeyPolicy → Bool
has_id tenant id p = p.tenant_id == tenant && p.id == id

abbrev drop_row :
    ℕ → AdminAuditActor → KeyTables → Option ApiKeyPolicy → Result ApiKeyPolicyError KeyTables
drop_row tenant actor db none = raise policy_not_found
drop_row tenant actor db (some row) = ok (record db {
  policies = keep (λ p. not (p.id == row.id)) db.policies;
  base =
      record_admin_action tenant actor "api_key_policy.delete"
        (record {
          kind = "api_key_policy";
          id = some row.principal_id;
          display = some (kind_value row.principal_kind);
        })
        (("principal_kind", text (kind_value row.principal_kind))
          ∷ ("principal_id", ident row.principal_id)
          ∷ ("max_ttl_seconds", number row.max_ttl_seconds)
          ∷ [])
        db.base;
})

unfoldable pub delete_policy :
    ℕ → ℕ → AdminAuditActor → KeyTables → Result ApiKeyPolicyError KeyTables
delete_policy tenant id actor db = drop_row tenant actor db (find (has_id tenant id) db.policies)

pub record NonConformingKey : Type 0 where
  pub key_id : ℕ
  pub user_id : ℕ
  pub label : String
  pub expires_at : Option ℕ
  pub allowed_expires_at : ℕ

abbrev pub outlasts : ℕ → Option ℕ → Bool
outlasts allowed none = true
outlasts allowed (some t) = ltb allowed t

abbrev nonconforming : UserApiKey → ℕ → NonConformingKey
nonconforming k allowed = record {
  key_id = k.id;
  user_id = k.user_id;
  label = k.label;
  expires_at = k.expires_at;
  allowed_expires_at = allowed;
}

-- One key of the loop, under the ceiling of its user.
abbrev pub check_key : ℕ → UserApiKey → Option ℕ → List NonConformingKey → List NonConformingKey
check_key moment k none out = out
check_key moment k (some ttl) out =
    if outlasts (moment + seconds ttl) k.expires_at
    then nonconforming k (moment + seconds ttl) ∷ out
    else out

unfoldable pub check_keys : ℕ → (ℕ → Option ℕ) → List UserApiKey → List NonConformingKey
check_keys moment ceiling [] = []
check_keys moment ceiling (k ∷ ks) =
    check_key moment k (ceiling k.user_id) (check_keys moment ceiling ks)

abbrev pub is_live : ℕ → UserApiKey → Bool
is_live tenant k = k.tenant_id == tenant && is_none k.revoked_at

unfoldable pub find_nonconforming_keys : ℕ → ℕ → KeyTables → List NonConformingKey
unfolding check_keys resolve_max_ttl
find_nonconforming_keys tenant moment db =
    check_keys moment (λ uid. (resolve_max_ttl tenant uid db).max_ttl_seconds)
      (keep (is_live tenant) db.keys)

-- `key = db.get(UserApiKey, item.key_id)`, and its new expiry
abbrev pub shorten : NonConformingKey → UserApiKey → UserApiKey
shorten item k =
    if k.id == item.key_id then record k { expires_at = some item.allowed_expires_at } else k

unfoldable pub shorten_all : List NonConformingKey → List UserApiKey → List UserApiKey
shorten_all [] keys = keys
shorten_all (item ∷ items) keys = shorten_all items (map (shorten item) keys)

-- items[:n]
abbrev first_items : {A : Type 0} → ℕ → List A → List A
first_items zero xs = []
first_items (suc n) [] = []
first_items (suc n) (x ∷ xs) = x ∷ first_items n xs

-- What is done about the keys that were found; `uuid_text` is `str` of a UUID.
unfoldable pub applied :
    (ℕ → String) → ℕ → AdminAuditActor → KeyTables → List NonConformingKey → KeyTables × ℕ
unfolding shorten_all record_action
applied uuid_text tenant actor db [] = (db, 0)
applied uuid_text tenant actor db (item ∷ items) = (
  record db {
    keys = shorten_all (item ∷ items) db.keys;
    base =
        record_action tenant actor "api_key_policy.apply_existing" none
          (("keys_updated", number (length (item ∷ items)))
            ∷ (
              "key_ids",
              names (
                  first_items 50
                    (map (λ (i : NonConformingKey). uuid_text i.key_id) (item ∷ items))),
            )
            ∷ [])
          db.base;
  },
  length (item ∷ items),
)

-- The tables afterwards, and the count.
unfoldable pub apply_to_existing_keys :
    (ℕ → String) → ℕ → AdminAuditActor → ℕ → KeyTables → KeyTables × ℕ
unfolding find_nonconforming_keys applied
apply_to_existing_keys uuid_text tenant actor moment db =
    applied uuid_text tenant actor db (find_nonconforming_keys tenant moment db)
