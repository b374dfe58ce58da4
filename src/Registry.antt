-- ===== src/Registry.antt =====
-- The registry of MCP servers and their tools: internal/registry. JSON documents are texts.
pub mod Store
pub mod Sync
pub mod Service
use fracta.Common.{ℕ, Time, String, same, Bool, Option}

-- `Server` of types.go; a status that is not given is the empty text.
pub record Server : Type 0 where
  pub name : String
  pub transport_type : String
  pub connection_config : Option String
  pub secret_refs : Option String
  pub server_capabilities : Option String
  pub proxy_enabled : Bool
  pub status : String
  pub health_message : String
  pub last_discovered_at : Option Time
  pub created_by : String
  pub created_at : Time
  pub updated_at : Time

-- `Tool`
pub record Tool : Type 0 where
  pub server_name : String
  pub tool_name : String
  pub description : String
  pub input_schema : Option String
  pub schema_hash : String
  pub enabled : Bool
  pub last_seen_at : Time
  pub metadata : Option String

-- `AuditEntry`
pub record AuditEntry : Type 0 where
  pub id : ℕ
  pub actor : String
  pub actor_type : String
  pub action : String
  pub resource_type : String
  pub resource_name : String
  pub detail : Option String
  pub timestamp : Time

-- `ServerFilter` and `ToolFilter`
pub record ServerFilter : Type 0 where
  pub status : Option String
  pub proxy_enabled : Option Bool

pub record ToolFilter : Type 0 where
  pub server_name : String
  pub enabled : Option Bool
