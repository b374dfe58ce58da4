-- ===== src/Gateway.antt =====
-- The gateway, which offers the tools of the MCP servers to the agents: internal/gateway.
pub mod Policy
pub mod Visibility
pub mod Catalog
use fracta.Common.{ℕ, Time, String, Bool, Option, List}

-- `ToolPolicy` of internal/config/config.go.
pub record ToolPolicy : Type 0 where
  pub deny : List String
  pub allow_only : List String

-- `CatalogEntry`
pub record CatalogEntry : Type 0 where
  pub server_name : String
  pub original_name : String
  pub description : String

-- `AgentScope`
pub record AgentScope : Type 0 where
  pub agent_task : String
  pub allowed_tools : List (String × Bool)
  pub expires_at : Time

-- `Gateway`: maps are association lists; a set that is nil, not yet built, is none.
pub record Gateway : Type 0 where
  pub catalog : List (String × CatalogEntry)
  pub has_registry : Bool
  pub tool_policies : List (String × Option ToolPolicy)
  pub visible_set : Option (List (String × Bool))
  pub visible_gen : ℕ
  pub scopes : List (String × AgentScope)
