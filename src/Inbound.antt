-- ===== src/Inbound.antt =====
-- What every inbound request meets: src/vyuu_gateway/api/inflight_gate.py and sessions/registry.py.
pub mod Gate
pub mod Sessions
mod Examples
