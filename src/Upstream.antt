-- ===== src/Upstream.antt =====
-- The outbound side of the gateway: circuit breakers, pooled clients.
pub mod Transport
pub mod Breaker
pub mod Pool
mod Examples
