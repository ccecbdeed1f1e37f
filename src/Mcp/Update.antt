-- ===== src/Mcp/Update.antt =====
-- What an update of a server changes.
use wai_ai.Common.{
  String, ◌≡◌, refl, Bool, true, false, Option, none, eq_refl, or_default, if◌then◌else◌, ◌==◌,
  ◌||◌,
}
use wai_ai.Common.Text.{truthy, trim}
use wai_ai.Mcp.{Server, UpdateParams}
use wai_ai.Mcp.Form.{filled, changed, changed_optional, form_from_server, build_update_params}

-- A request that changes nothing.
abbrev pub no_changes : UpdateParams
no_changes = record {
  name = none;
  alias = none;
  url = none;
  auth_type = none;
  auth_header = none;
  auth_token = none;
  oauth_token_url = none;
  oauth_client_id = none;
  oauth_client_secret = none;
  oauth_scopes = none;
  code_mode_enabled = none;
}

-- No text of the server begins or ends with a space.
pub record IsTrimmed (s : Server) : Type 0 where
  pub name : trim s.name ≡ s.name
  pub alias : trim s.alias ≡ s.alias
  pub url : trim s.url ≡ s.url
  pub auth_header : trim (or_default s.auth_header "") ≡ or_default s.auth_header ""
  pub oauth_token_url : trim (or_default s.oauth_token_url "") ≡ or_default s.oauth_token_url ""
  pub oauth_client_id : trim (or_default s.oauth_client_id "") ≡ or_default s.oauth_client_id ""
  pub oauth_scopes : trim (or_default s.oauth_scopes "") ≡ or_default s.oauth_scopes ""

changed_self : (x : String) → changed x x ≡ none
unfolding changed
changed_self x = rw (eq_refl x) refl

changed_same : (x : String) → trim x ≡ x → changed (trim x) x ≡ none
unfolding changed
changed_same x h = rw (h, eq_refl x) refl

changed_optional_same :
    (o : Option String)
    → trim (or_default o "") ≡ or_default o ""
    → changed_optional (or_default o "") o ≡ none
unfolding changed_optional
changed_optional_same o h = rw (h, eq_refl (or_default o "")) refl

filled_blank : filled "" ≡ none
unfolding filled trim
filled_blank = refl

either_same : (b : Bool) (o : Option String) → (if b then o else o) ≡ o
either_same true o = refl
either_same false o = refl

-- The form of a trimmed server, saved as it was opened, sends a request that changes nothing.
pub build_update_params-form_from_server :
    (s : Server) → IsTrimmed s → build_update_params s (form_from_server s) ≡ no_changes
unfolding build_update_params form_from_server
build_update_params-form_from_server s t =
    rw
      (
        changed_same s.name t.name,
        changed_same s.alias t.alias,
        changed_same s.url t.url,
        changed_self s.auth_type,
        changed_optional_same s.auth_header t.auth_header,
        changed_optional_same s.oauth_token_url t.oauth_token_url,
        changed_optional_same s.oauth_client_id t.oauth_client_id,
        changed_optional_same s.oauth_scopes t.oauth_scopes,
        filled_blank,
        either_same (s.auth_type == "bearer" || s.auth_type == "header") none,
        either_same (s.auth_type == "header") none,
        either_same (s.auth_type == "oauth") none,
      )
      refl

-- The trimmed text, or the old one where that is blank.
abbrev pub kept : String → Option String → String
kept x old = if truthy (trim x) then trim x else or_default old ""
