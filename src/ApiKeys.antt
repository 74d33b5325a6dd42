-- ===== src/ApiKeys.antt =====
-- src/vyuu_gateway/registry/api_key_policy_service.py: how long the API keys of users may live; and
-- the rows of db/models.py that it reads and writes.
pub mod Ttl
pub mod Policies
pub mod Format
mod Examples
use vyuu_mcp_gateway.Prelude.{ℕ, String, str_eq, Bool, true, false, Option, List}
use vyuu_mcp_gateway.Tables.{Db}

pub data ApiKeyPrincipalKind : Type 0 where
  tenant_kind group_kind user_kind : ApiKeyPrincipalKind

abbrev pub kind_value : ApiKeyPrincipalKind → String
kind_value tenant_kind = "tenant"
kind_value group_kind = "group"
kind_value user_kind = "user"

-- Instants are in microseconds.
pub record ApiKeyPolicy : Type 0 where
  pub id : ℕ
  pub tenant_id : ℕ
  pub principal_kind : ApiKeyPrincipalKind
  pub principal_id : ℕ
  pub max_ttl_seconds : ℕ
  pub note : Option String
  pub created_by : ℕ
  pub updated_at : ℕ

pub record UserApiKey : Type 0 where
  pub id : ℕ
  pub tenant_id : ℕ
  pub user_id : ℕ
  pub label : String
  pub expires_at : Option ℕ
  pub revoked_at : Option ℕ

pub record Group : Type 0 where
  pub id : ℕ
  pub tenant_id : ℕ

-- The tables of the policies beside those of `Tables`, which has the memberships and the audit log.
pub record KeyTables : Type 0 where
  pub base : Db
  pub policies : List ApiKeyPolicy
  pub keys : List UserApiKey
  pub groups : List Group

-- `ApiKeyPolicyError`, by the case of its message.
pub data ApiKeyPolicyError : Type 0 where
  already_past not_positive above_limit not_own_tenant policy_not_found : ApiKeyPolicyError
  above_maximum : ℕ → ApiKeyPolicyError
  above_policy : ℕ → ℕ → ApiKeyPolicyError
