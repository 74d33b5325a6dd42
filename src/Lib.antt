-- ===== src/Lib.antt =====
-- The vyuu MCP gateway: who may reach a virtual server, how a tool call is let through and recorded, and
-- how the upstream servers are reached.
--
-- Parts of the program and the files that model them:
--   Access, Access/Rows, Access/Exact: virtual_servers/access.py, virtual_servers/tool_elevation.py and
--     `_user_has_active_grant` of registry/access_requests_service.py (all paths are below
--     src/vyuu_gateway). A table is a list of rows, a query is a comprehension over it.
--   Tables: the rows of db/models.py and audit/admin_audit.py that the registry reads and writes.
--   Registry: registry/access_requests_service.py and registry/jit_service.py. Each function takes the tables
--     and returns the new ones with its result, or the exception that it raises; the clock's readings and
--     the fresh id are arguments (`Surroundings`). Registry/Run has every call that changes the tables as
--     one data type, and runs sequences of them. The unique index on pending requests is the one that
--     migrations/versions/20260825_0020_jit_tool_elevation.py, beside src, leaves.
--   Upstream/Breaker: upstream/circuit_breaker.py, a breaker, and the registry of breakers by key.
--   Upstream/Pool: upstream/pool.py. Upstream/Pool is what is done under the lock of one key,
--     Upstream/Pool/Lease the events of its callers in any order, Upstream/Pool/Keys the dictionary of keys,
--     Upstream/Pool/Call overlapping calls through the breaker.
--   ToolCalls: tool_calls/lifecycle.py, with policy/interfaces.py. What is injected into `ToolCallLifecycle`
--     is the record `Collaborators`; what a call does outside is a list of actions, where `called` is the call of
--     a client's `call_tool`, which may itself refuse to reach its upstream.
--   ToolCalls/Mrtr: mcp/mrtr.py, the policy on rounds in which an upstream asks for more input.
--   VirtualServers, Schema: virtual_servers/resolver.py, the tools that a virtual server exposes and their
--     names. VirtualServers/Names is the making of one name, VirtualServers/Synthesis that of the list,
--     VirtualServers/Resolve the queries over the catalogue.
--   Audit: audit/spool.py and audit/emitter.py. Audit/Lines is the text of the spool's file, Audit/Spool the
--     spool and its replay, Audit/Emitter the queue, its worker and the emitter on disk.
--   ApiKeys: registry/api_key_policy_service.py (ApiKeys/Ttl, ApiKeys/Policies) and users/api_keys.py
--     (ApiKeys/Format).
--   Inbound: api/inflight_gate.py and sessions/registry.py.
--   Providers: policy/simple.py, policy/management_plane.py and identity/chain.py, which the lifecycle takes as
--     collaborators.
--
-- How they interact: a tool call is let through by the grants that the registry issues (Access reads the
-- tables that Registry writes) and by the elevations of single tools; then it goes to the client of an
-- upstream server, which takes a connection from the pool and is guarded by the breaker of its key. The tools
-- among which it looks are those that VirtualServers resolves; its audit events go to the emitter of Audit.
--
-- Numbers: identifiers (UUIDs), instants (microseconds in the registry, ticks upstream) and counts are natural
-- numbers; durations that callers may pass with any sign are integers. Nothing is bounded by a word size.
-- The loop of `_make_unique` has as many rounds as there are names in use and two more; every other function
-- is structurally recursive. The loop of `_acquire` is one event for each turn, since a turn that waits ends
-- in a notification, and so are the turns of the emitter's worker.
--
-- Not modelled: the database driver and its transactions (a function that raises leaves the tables as they
-- were), JSON-schema validation, UUID parsing, bcrypt, the JSON texts of audit events, the exceptions of
-- collaborators that the lifecycle does not catch, durations, telemetry and logging, the API routes and
-- pages, the identity providers of a chain, sessions in Redis, SCIM, SIEM, secrets and the risk classifier.
mod Prelude
pub mod Dict
pub mod Tables
pub mod Access
pub mod ApiKeys
pub mod Audit
pub mod Inbound
pub mod Providers
pub mod Registry
pub mod Upstream
pub mod Schema
pub mod ToolCalls
pub mod VirtualServers
