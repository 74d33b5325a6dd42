-- ===== src/VirtualServers.antt =====
-- src/vyuu_gateway/virtual_servers/resolver.py: the tools that a virtual server exposes, and the rows
-- of db/models.py that they are resolved from.
pub mod Names
pub mod Fresh
pub mod Synthesis
pub mod Resolve
mod Examples
use vyuu_mcp_gateway.Prelude.{ℕ, String, Bool, List}
use vyuu_mcp_gateway.Schema.{Fields}
use vyuu_mcp_gateway.Tables.{VirtualServer}

pub record VirtualServerToolCapability : Type 0 where
  pub server_id : ℕ
  pub server_display_name : String
  pub tool_name : String
  pub schema_json : Fields

pub record McpServer : Type 0 where
  pub id : ℕ
  pub tenant_id : ℕ
  pub display_name : String

pub data McpCapabilityKind : Type 0 where
  tool resource prompt : McpCapabilityKind

pub record McpCapability : Type 0 where
  pub tenant_id : ℕ
  pub server_id : ℕ
  pub kind : McpCapabilityKind
  pub name : String
  pub schema_json : Fields
  pub deprecated : Bool

pub record VirtualServerTool : Type 0 where
  pub tenant_id : ℕ
  pub vserver_id : ℕ
  pub server_id : ℕ
  pub tool_name : String

pub record Catalogue : Type 0 where
  pub virtual_servers : List VirtualServer
  pub servers : List McpServer
  pub tools : List VirtualServerTool
  pub capabilities : List McpCapability
