-- ===== src/Registry/Effects.antt =====
-- What one call may do to the tables of requests and of grants, as a relation between the tables
-- before and after it.
use vyuu_mcp_gateway.Prelude.{
  ℕ, ◌≡◌, refl, Bool, true, false, ◌&&◌, String, str_eq, Option, none, some, List, ◌∷◌, map, Memᴰ,
  any, ◌==◌, if◌then◌else◌, text_eq,
}
use vyuu_mcp_gateway.Tables.{VirtualServerGrant, AccessRequest, is_pending, approved, Db}
use vyuu_mcp_gateway.Registry.Requests.{coalesced}

-- A pending request of this user for this tool of this virtual server, or for all of it.
abbrev pub blocks : ℕ → ℕ → Option String → AccessRequest → Bool
blocks uid vserver_id tool q =
    is_pending q.status
    && q.user_id == uid
    && q.vserver_id == vserver_id
    && str_eq (coalesced q.exposed_tool_name) (coalesced tool)

abbrev pub rewritten : AccessRequest → AccessRequest → AccessRequest
rewritten row q = if q.id == row.id then row else q

pub data RequestsStep (before after : List AccessRequest) : Type 0 where
  kept : after ≡ before → RequestsStep before after
  filed :
      (r : AccessRequest)
      → is_pending r.status ≡ true
      → any (blocks r.user_id r.vserver_id r.exposed_tool_name) before ≡ false
      → after ≡ r ∷ before
      → RequestsStep before after
  decided :
      (old row : AccessRequest)
      → Memᴰ old before
      → is_pending old.status ≡ true
      → row.id ≡ old.id
      → is_pending row.status ≡ false
      → after ≡ map (rewritten row) before
      → RequestsStep before after

-- An operator approved a request of the grant's user for all of the virtual server that asked for no
-- duration, and the approved row names the grant.
pub record Asked (before after : List AccessRequest) (g : VirtualServerGrant) : Type 0 where
  pub request : AccessRequest
  pub row : AccessRequest
  pub waiting : Memᴰ request before
  pub was_pending : is_pending request.status ≡ true
  pub by_user : request.user_id ≡ g.principal_id
  pub for_vserver : request.vserver_id ≡ g.vserver_id
  pub names_no_tool : request.exposed_tool_name ≡ none
  pub asks_no_duration : request.requested_duration_seconds ≡ none
  pub written : Memᴰ row after
  pub same_request : row.id ≡ request.id
  pub is_approved : row.status ≡ approved
  pub names_grant : row.created_grant_id ≡ some g.id
  pub same_operator : row.decided_by ≡ g.granted_by

pub data GrantsStep (asking asked : List AccessRequest) (before after : List VirtualServerGrant)
    : Type 0 where
  kept : after ≡ before → GrantsStep asking asked before after
  issued :
      (g : VirtualServerGrant)
      → (g.expires_at ≡ none → Asked asking asked g)
      → after ≡ g ∷ before
      → GrantsStep asking asked before after

pub record Effect (db db' : Db) : Type 0 where
  pub requests : RequestsStep db.requests db'.requests
  pub grants : GrantsStep db.requests db'.requests db.grants db'.grants

pub no-Effect : (db : Db) → Effect db db
no-Effect db = record { requests = RequestsStep.kept refl; grants = GrantsStep.kept refl }
