-- ===== src/Inbound/Sessions.antt =====
-- `InMemorySessionRegistry`. The key of a session is its tenant and its id; the clock's reading is an
-- argument of a look-up.
pub mod Lazy
use vyuu_mcp_gateway.Prelude.{
  ℕ, ◌+◌, String, Bool, true, false, Option, none, some, List, [], ◌∷◌, leb, if◌then◌else◌, Eq,
  nat_eq, text_eq, pair_eq,
}
use vyuu_mcp_gateway.Dict.{Dict, get, put, pop}
use vyuu_mcp_gateway.Tables.{seconds}
use vyuu_mcp_gateway.ToolCalls.{GatewaySession}

abbrev pub Sessions : Type 0
Sessions = Dict (ℕ × String) GatewaySession

-- `expires_at <= now`
abbrev pub is_expired : GatewaySession → ℕ → Bool
is_expired session now = leb session.expires_at now

unfoldable pub create_session : GatewaySession → Sessions → Sessions
unfolding put
create_session session sessions = put sessions (session.tenant_id, session.session_id) session

-- An expired session is dropped by the look-up that finds it.
abbrev pub look_up :
    ℕ × String → ℕ → Sessions → Option GatewaySession → Sessions × Option GatewaySession
look_up key now sessions none = (sessions, none)
look_up key now sessions (some session) =
    if is_expired session now then (pop sessions key, none) else (sessions, some session)

unfoldable pub get_session : ℕ → String → ℕ → Sessions → Sessions × Option GatewaySession
unfolding get pop
get_session tenant session_id now sessions =
    look_up (tenant, session_id) now sessions (get sessions (tenant, session_id))

unfoldable pub delete_session : ℕ → String → Sessions → Sessions
unfolding pop
delete_session tenant session_id sessions = pop sessions (tenant, session_id)

-- `default_expiry(ttl_seconds=ttl, now=now)`
abbrev pub default_expiry : ℕ → ℕ → ℕ
default_expiry ttl now = now + seconds ttl
