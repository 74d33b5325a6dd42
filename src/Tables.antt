-- ===== src/Tables.antt =====
-- The rows of src/vyuu_gateway/db/models.py that grants, access requests and just-in-time
-- elevations live in, and the audit rows of audit/admin_audit.py. Identifiers (UUIDs) are numbers,
-- an instant is a number of microseconds, a table is a list of rows.
use vyuu_mcp_gateway.Prelude.{
  ℕ, ℤ, ◌*◌, String, Bool, true, false, Option, none, some, List, ◌==◌, any, ◌∷◌, ltb,
}
use vyuu_mcp_gateway.Dict.{Dict}

-- `timedelta(seconds=n)`
abbrev pub seconds : ℕ → ℕ
seconds n = n * 1000000

pub data VirtualServerVisibility : Type 0 where
  public private : VirtualServerVisibility

abbrev pub is_public : VirtualServerVisibility → Bool
is_public public = true
is_public private = false

pub data GrantPrincipalKind : Type 0 where
  user group : GrantPrincipalKind

abbrev pub is_user : GrantPrincipalKind → Bool
is_user user = true
is_user group = false

abbrev pub is_group : GrantPrincipalKind → Bool
is_group user = false
is_group group = true

pub data GrantVia : Type 0 where
  operator jit_auto jit_approved : GrantVia

pub data AccessRequestStatus : Type 0 where
  pending approved declined withdrawn : AccessRequestStatus

abbrev pub is_pending : AccessRequestStatus → Bool
is_pending pending = true
is_pending _ = false

pub record VirtualServer : Type 0 where
  pub id : ℕ
  pub tenant_id : ℕ
  pub name : String
  pub visibility : VirtualServerVisibility
  pub rename_map : Dict String String
  pub required_scopes : Dict String String
  pub jit_enabled : Bool
  pub jit_max_duration_seconds : ℕ
  pub jit_auto_approve : Bool
  pub jit_require_justification : Bool
  pub jit_tools : Dict String ℕ

pub record UserGroupMembership : Type 0 where
  pub user_id : ℕ
  pub group_id : ℕ

pub record VirtualServerGrant : Type 0 where
  pub id : ℕ
  pub tenant_id : ℕ
  pub vserver_id : ℕ
  pub principal_kind : GrantPrincipalKind
  pub principal_id : ℕ
  pub granted_by : Option ℕ
  pub granted_via : GrantVia
  pub justification : Option String
  pub expires_at : Option ℕ
  pub revoked_at : Option ℕ

pub record VirtualServerToolGrant : Type 0 where
  pub id : ℕ
  pub tenant_id : ℕ
  pub vserver_id : ℕ
  pub exposed_tool_name : String
  pub principal_kind : GrantPrincipalKind
  pub principal_id : ℕ
  pub granted_by : Option ℕ
  pub granted_via : GrantVia
  pub justification : Option String
  pub expires_at : ℕ
  pub revoked_at : Option ℕ

pub record AccessRequest : Type 0 where
  pub id : ℕ
  pub tenant_id : ℕ
  pub user_id : ℕ
  pub vserver_id : ℕ
  pub status : AccessRequestStatus
  pub note : Option String
  pub requested_duration_seconds : Option ℕ
  pub exposed_tool_name : Option String
  pub decision_note : Option String
  pub decided_by : Option ℕ
  pub decided_at : Option ℕ
  pub created_grant_id : Option ℕ

pub record User : Type 0 where
  pub id : ℕ
  pub tenant_id : ℕ
  pub email : String

-- `AdminAuditActor`
pub data AdminAuditActor : Type 0 where
  by_operator : ℕ → Option String → AdminAuditActor
  by_system : String → AdminAuditActor
  by_scim : String → AdminAuditActor

-- `AdminAuditTarget`
pub record AdminAuditTarget : Type 0 where
  pub kind : String
  pub id : Option ℕ
  pub display : Option String

-- A value in the `detail` of an audit row.
pub data DetailValue : Type 0 where
  null : DetailValue
  text : String → DetailValue
  ident : ℕ → DetailValue
  number : ℕ → DetailValue
  signed : ℤ → DetailValue
  instant : ℕ → DetailValue
  flag : Bool → DetailValue
  via : GrantVia → DetailValue
  tools : Dict String ℕ → DetailValue
  names : List String → DetailValue
  policy : Bool → ℕ → Bool → Bool → DetailValue

abbrev pub or_null {ℓ} : {A : Type ℓ} → (A → DetailValue) → Option A → DetailValue
or_null f none = null
or_null f (some a) = f a

pub record AdminAuditLog : Type 0 where
  pub tenant_id : ℕ
  pub actor : AdminAuditActor
  pub action : String
  pub target : Option AdminAuditTarget
  pub detail : Dict String DetailValue

-- What a session reads and writes.
pub record Db : Type 0 where
  pub vservers : List VirtualServer
  pub memberships : List UserGroupMembership
  pub grants : List VirtualServerGrant
  pub tool_grants : List VirtualServerToolGrant
  pub requests : List AccessRequest
  pub users : List User
  pub audit : List AdminAuditLog

-- `record_admin_action`: the row joins the caller's transaction.
unfoldable pub record_action :
    ℕ → AdminAuditActor → String → Option AdminAuditTarget → Dict String DetailValue → Db → Db
record_action tenant actor action target detail db = record db {
  audit =
      record {
        tenant_id = tenant;
        actor = actor;
        action = action;
        target = target;
        detail = detail;
      }
      ∷ db.audit;
}

-- The same with a target, as most callers have one.
unfoldable pub record_admin_action :
    ℕ → AdminAuditActor → String → AdminAuditTarget → Dict String DetailValue → Db → Db
unfolding record_action
record_admin_action tenant actor action target detail db =
    record_action tenant actor action (some target) detail db

-- `x is None`
abbrev pub is_none {ℓ} : {A : Type ℓ} → Option A → Bool
is_none none = true
is_none (some a) = false

-- `expires_at is None or expires_at > now`
abbrev pub unexpired : ℕ → Option ℕ → Bool
unexpired now none = true
unexpired now (some t) = ltb now t

-- `x in xs`
abbrev pub member : ℕ → List ℕ → Bool
member a xs = any (λ x. x == a) xs
