-- ===== src/Mcp/Form.antt =====
-- ui/src/pages/mcp/serverForm.ts: the form of an MCP server, its validation and the bodies of the
-- requests that create and update a server.
use wai_ai.Common.{String, Bool, ◌||◌, Option, none, some, or_default, if◌then◌else◌, ◌==◌}
use wai_ai.Common.Text.{truthy, present, trim}
use wai_ai.Mcp.{Server, CreateParams, UpdateParams}

-- `ServerFormState`
pub record ServerForm : Type 0 where
  pub name : String
  pub alias : String
  pub url : String
  pub auth_type : String
  pub auth_token : String
  pub auth_header : String
  pub oauth_token_url : String
  pub oauth_client_id : String
  pub oauth_client_secret : String
  pub oauth_scopes : String

pub record ServerFormErrors : Type 0 where
  pub name : Option String
  pub alias : Option String
  pub url : Option String
  pub auth_header : Option String
  pub team : Option String

abbrev pub empty_server_form : ServerForm
empty_server_form = record {
  name = "";
  alias = "";
  url = "";
  auth_type = "none";
  auth_token = "";
  auth_header = "";
  oauth_token_url = "";
  oauth_client_id = "";
  oauth_client_secret = "";
  oauth_scopes = "";
}

-- The message, if the field is blank.
abbrev pub required : String → String → Option String
required field message = if truthy (trim field) then none else some message

-- `validateServerForm`
unfoldable pub validate_server_form : ServerForm → ServerFormErrors
validate_server_form form = record {
  name = required form.name "Name is required";
  alias = required form.alias "Alias is required";
  url = required form.url "URL is required";
  auth_header =
      if form.auth_type == "header"
      then required form.auth_header "Header name is required for custom header auth"
      else none;
  team = none;
}

-- `if (x.trim()) params.f = x.trim()`, and `x.trim() || undefined`
unfoldable pub filled : String → Option String
filled x = present (some (trim x))

abbrev pub has_token : String → Bool
has_token auth_type = auth_type == "bearer" || auth_type == "header"

-- `buildCreateParams`
unfoldable pub build_create_params : ServerForm → CreateParams
build_create_params form = record {
  name = trim form.name;
  alias = trim form.alias;
  url = trim form.url;
  auth_type = form.auth_type;
  auth_token = if has_token form.auth_type then filled form.auth_token else none;
  auth_header = if form.auth_type == "header" then filled form.auth_header else none;
  oauth_token_url = if form.auth_type == "oauth" then filled form.oauth_token_url else none;
  oauth_client_id = if form.auth_type == "oauth" then filled form.oauth_client_id else none;
  oauth_client_secret = if form.auth_type == "oauth" then filled form.oauth_client_secret else none;
  oauth_scopes = if form.auth_type == "oauth" then filled form.oauth_scopes else none;
}

-- `formFromServer`
unfoldable pub form_from_server : Server → ServerForm
form_from_server server = record {
  name = server.name;
  alias = server.alias;
  url = server.url;
  auth_type = server.auth_type;
  auth_token = "";
  auth_header = or_default server.auth_header "";
  oauth_token_url = or_default server.oauth_token_url "";
  oauth_client_id = or_default server.oauth_client_id "";
  oauth_client_secret = "";
  oauth_scopes = or_default server.oauth_scopes "";
}

-- `if (x !== old) params.f = x`
unfoldable pub changed : String → String → Option String
changed x old = if x == old then none else some x

-- `if (x.trim() !== (old ?? '')) params.f = x.trim() || undefined`
unfoldable pub changed_optional : String → Option String → Option String
changed_optional x old = if trim x == or_default old "" then none else filled x

-- `buildUpdateParams`
unfoldable pub build_update_params : Server → ServerForm → UpdateParams
build_update_params server form = record {
  name = changed (trim form.name) server.name;
  alias = changed (trim form.alias) server.alias;
  url = changed (trim form.url) server.url;
  auth_type = changed form.auth_type server.auth_type;
  auth_token = if has_token form.auth_type then filled form.auth_token else none;
  auth_header =
      if form.auth_type == "header"
      then changed_optional form.auth_header server.auth_header
      else none;
  oauth_token_url =
      if form.auth_type == "oauth"
      then changed_optional form.oauth_token_url server.oauth_token_url
      else none;
  oauth_client_id =
      if form.auth_type == "oauth"
      then changed_optional form.oauth_client_id server.oauth_client_id
      else none;
  oauth_client_secret = if form.auth_type == "oauth" then filled form.oauth_client_secret else none;
  oauth_scopes =
      if form.auth_type == "oauth"
      then changed_optional form.oauth_scopes server.oauth_scopes
      else none;
  code_mode_enabled = none;
}
