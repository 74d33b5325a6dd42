-- ===== src/Upstream/Transport.antt =====
-- `McpTransport` of src/vyuu_gateway/db/models.py.
use vyuu_mcp_gateway.Prelude.{◌≡◌, ◌↔◌, Bool, true, false, Eq, arith}

pub data McpTransport : Type 0 where
  stdio sse streamable_http : McpTransport

abbrev pub same_transport : McpTransport → McpTransport → Bool
same_transport stdio stdio = true
same_transport sse sse = true
same_transport streamable_http streamable_http = true
same_transport _ _ = false

pub same_transport_iff : (a b : McpTransport) → (same_transport a b ≡ true) ↔ (a ≡ b)
same_transport_iff a b = ground arith

instance abbrev pub transport_eq : Eq McpTransport
transport_eq = record { beq = same_transport; beq_iff = same_transport_iff }
