-- ===== src/Inbound/Gate.antt =====
-- `PerTenantInflightGate`. Requests come and end in any order, so both are steps; the path, the
-- headers and the parse of a UUID are read by parameters.
pub mod Bound
use vyuu_mcp_gateway.Prelude.{
  ℕ, zero, suc, ◌+◌, ◌-◌, String, Bool, true, false, not, ◌&&◌, ◌||◌, Option, none, some, List, [],
  ◌∷◌, any, str_eq, ◌==◌, Result, ok, raise, if◌then◌else◌, Eq, nat_eq,
}
use vyuu_mcp_gateway.Dict.{Dict, get, put}

-- An ASGI scope: what is read of it. A header is a name and a value.
pub record Scope : Type 0 where
  pub type : String
  pub path : String
  pub headers : List (String × String)

-- `_semaphores` maps a tenant to the free places of its semaphore.
pub record PerTenantInflightGate : Type 0 where
  pub limit : ℕ
  pub semaphores : Dict ℕ ℕ

-- The `ValueError` of a limit below 1.
pub data GateError : Type 0 where
  limit_below_one : GateError

unfoldable pub new_gate : ℕ → Result GateError PerTenantInflightGate
new_gate per_tenant_limit =
    if per_tenant_limit == 0
    then raise limit_below_one
    else ok (record { limit = per_tenant_limit; semaphores = [] })

abbrev pub _tenant_header : String
_tenant_header = "x-vyuu-tenant-id"

abbrev pub _deep_health_path : String
_deep_health_path = "/api/v1/health"

-- What a request is met with: it runs outside the gate, runs on a place of its tenant, or is
-- answered with 503.
pub data Admission : Type 0 where
  bypassed : Admission
  admitted refused : ℕ → Admission

-- `mcp_tenant` is the tenant group of `_MCP_PATH.match`, `uuid_of` is `UUID(...)` of a text.
module _ (liveness_paths : List String) (mcp_tenant : String → Option String)
    (uuid_of : String → Option ℕ) where
  -- The first header of that name decides.
  unfoldable pub header_tenant : List (String × String) → Option ℕ
  header_tenant [] = none
  header_tenant ((key, value) ∷ headers) =
      let rest = header_tenant headers in if str_eq key _tenant_header then uuid_of value else rest

  abbrev pub path_or_header : List (String × String) → Option String → Option ℕ
  path_or_header headers (some tenant) = uuid_of tenant
  path_or_header headers none = header_tenant headers

  unfoldable pub _extract_tenant : Scope → Option ℕ
  unfolding header_tenant
  _extract_tenant scope = path_or_header scope.headers (mcp_tenant scope.path)

  abbrev pub free_places : PerTenantInflightGate → Option ℕ → ℕ
  free_places gate none = gate.limit
  free_places gate (some free) = free

  -- The semaphore is made on the first request; `locked()` is that no place is free.
  abbrev pub take_place : PerTenantInflightGate → ℕ → ℕ → PerTenantInflightGate × Admission
  take_place gate tenant zero =
      (record gate { semaphores = put gate.semaphores tenant 0 }, refused tenant)
  take_place gate tenant (suc free) =
      (record gate { semaphores = put gate.semaphores tenant free }, admitted tenant)

  abbrev pub enter_tenant : PerTenantInflightGate → Option ℕ → PerTenantInflightGate × Admission
  enter_tenant gate none = (gate, bypassed)
  enter_tenant gate (some tenant) =
      take_place gate tenant (free_places gate (get gate.semaphores tenant))

  -- `__call__` up to `self._app`
  unfoldable pub enter : PerTenantInflightGate → Scope → PerTenantInflightGate × Admission
  unfolding _extract_tenant get put
  enter gate scope =
      let tenant = enter_tenant gate (_extract_tenant scope) in
      if not (str_eq scope.type "http")
        || (any (λ p. str_eq p scope.path) liveness_paths || str_eq scope.path _deep_health_path)
      then (gate, bypassed)
      else tenant

abbrev pub released : Option ℕ → ℕ
released none = 0
released (some free) = suc free

-- The `finally` of an admitted request, whether `self._app` returned or raised.
unfoldable pub leave : PerTenantInflightGate → ℕ → PerTenantInflightGate
unfolding get put
leave gate tenant = record gate {
  semaphores = put gate.semaphores tenant (released (get gate.semaphores tenant));
}
