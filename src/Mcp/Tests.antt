-- ===== src/Mcp/Tests.antt =====
-- MCP servers and forms at concrete values.
use Prim.{¬◌}
use wai_ai.Common.{
  map, String, ◌≡◌, ◌↔◌, ◌⊎◌, refl, true, false, Option, none, some, [], ◌∷◌, ◌==◌, if◌then◌else◌,
}
use wai_ai.Common.Text.{trim}
use wai_ai.Mcp.{Server, Health, healthy}
use wai_ai.Mcp.Servers.{PermFlags, can_write_server, ServerSort, tools, desc}
use wai_ai.Mcp.Write.{IsOwned, IsElsewhere, can_write_server_iff}
use wai_ai.Mcp.Form.{ServerForm, empty_server_form}
use wai_ai.Mcp.Update.{IsTrimmed}

abbrev search : Server
search = record {
  id = "s1";
  name = "Search";
  alias = "search";
  url = "https://search.example";
  auth_type = "oauth";
  auth_header = none;
  oauth_token_url = some "https://login.example";
  oauth_client_id = some "wai";
  oauth_scopes = some "read";
  source = "api";
  scope = "team";
  org_id = some "o1";
  team_id = some "t1";
  is_active = true;
  code_mode_enabled = false;
  created_at = "2026-01-01";
  updated_at = "2026-01-01";
}

abbrev team_admin : PermFlags
team_admin = record { is_system_admin = false; is_org_admin = false; is_team_admin = true }

abbrev by_tools : ServerSort
by_tools = record { column = tools; direction = desc }

abbrev health_of : String → Option Health
health_of i = if i == "s1" then some (record { status = healthy; tool_count = 3 }) else none

abbrev edited : ServerForm
edited = record empty_server_form {
  name = " Web search ";
  alias = "search";
  url = "https://search.example";
  auth_type = "oauth";
}

can_write_server_iff_example : (can_write_server search team_admin (some "o1") ≡ true) ↔ (
    (team_admin.is_system_admin ≡ true)
    ⊎ (IsOwned search
        × ¬ IsElsewhere search.org_id (some "o1")
        × ((team_admin.is_org_admin ≡ true)
            ⊎ ((search.scope ≡ "team") × (team_admin.is_team_admin ≡ true)))))
can_write_server_iff_example = can_write_server_iff search team_admin (some "o1")

search-IsTrimmed : IsTrimmed search
unfolding trim
search-IsTrimmed = record {
  name = refl;
  alias = refl;
  url = refl;
  auth_header = refl;
  oauth_token_url = refl;
  oauth_client_id = refl;
  oauth_scopes = refl;
}

-- The labels of the four types, as the table shows them.
auth_labels :
    map (λ o. wai_ai.Mcp.Labels.auth_label o.value) wai_ai.Mcp.Labels.auth_type_options
    ≡ "None" ∷ "Bearer" ∷ "Header" ∷ "OAuth" ∷ []
unfolding wai_ai.Mcp.Labels.auth_label
auth_labels = refl
