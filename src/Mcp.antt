-- ===== src/Mcp.antt =====
-- ui/src/pages/mcp and ui/src/hooks/useMCPServers.ts: the records of MCP servers. The children are
-- the list of servers (helpers.ts) and their form (serverForm.ts), and what is proved of each.
pub mod Labels
pub mod Servers
pub mod Write
pub mod Listing
pub mod Form
pub mod Create
pub mod Update
mod Tests
use wai_ai.Common.{ℕ, String, Bool, Option}

-- `MCPServerResponse`
pub record Server : Type 0 where
  pub id : String
  pub name : String
  pub alias : String
  pub url : String
  pub auth_type : String
  pub auth_header : Option String
  pub oauth_token_url : Option String
  pub oauth_client_id : Option String
  pub oauth_scopes : Option String
  pub source : String
  pub scope : String
  pub org_id : Option String
  pub team_id : Option String
  pub is_active : Bool
  pub code_mode_enabled : Bool
  pub created_at : String
  pub updated_at : String

pub record CreateParams : Type 0 where
  pub name : String
  pub alias : String
  pub url : String
  pub auth_type : String
  pub auth_header : Option String
  pub auth_token : Option String
  pub oauth_token_url : Option String
  pub oauth_client_id : Option String
  pub oauth_client_secret : Option String
  pub oauth_scopes : Option String

-- A field that is missing, or undefined, is not in the request's body.
pub record UpdateParams : Type 0 where
  pub name : Option String
  pub alias : Option String
  pub url : Option String
  pub auth_type : Option String
  pub auth_header : Option String
  pub auth_token : Option String
  pub oauth_token_url : Option String
  pub oauth_client_id : Option String
  pub oauth_client_secret : Option String
  pub oauth_scopes : Option String
  pub code_mode_enabled : Option Bool

pub data HealthStatus : Type 0 where
  healthy unhealthy unknown : HealthStatus

-- The fields of `MCPServerHealth` that the list reads.
pub record Health : Type 0 where
  pub status : HealthStatus
  pub tool_count : ℕ
