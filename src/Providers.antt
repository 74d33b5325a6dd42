-- ===== src/Providers.antt =====
-- The providers that the tool-call lifecycle asks: src/vyuu_gateway/policy/simple.py,
-- policy/management_plane.py and identity/chain.py.
pub mod Simple
pub mod Management
pub mod Chain
mod Examples
