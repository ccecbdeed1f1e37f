-- ===== src/Mcp/Create.antt =====
-- What a form that passes its validation sends.
use wai_ai.Common.{String, ◌≡◌, ◌≢◌, ◌↔◌, ◌⊎◌, true, Option, none, arith, eq_iff, or_default}
use wai_ai.Common.Text.{truthy}
use wai_ai.Mcp.Form.{
  ServerForm, ServerFormErrors, validate_server_form, filled, build_create_params,
}

abbrev pub no_errors : ServerFormErrors
no_errors = record { name = none; alias = none; url = none; auth_header = none; team = none }

-- A field of the request that is not the empty text.
abbrev pub IsFilled : Option String → Type 0
IsFilled o = truthy (or_default o "") ≡ true

-- A form has no errors exactly when the request that it makes has a name, an alias and a URL, and
-- a header's name if the type is "header".
pub validate_server_form_iff :
    (form : ServerForm)
    → (validate_server_form form ≡ no_errors) ↔ (
        (truthy (build_create_params form).name ≡ true)
        × (truthy (build_create_params form).alias ≡ true)
        × (truthy (build_create_params form).url ≡ true)
        × (((build_create_params form).auth_type ≢ "header")
            ⊎ IsFilled (build_create_params form).auth_header))
unfolding validate_server_form build_create_params filled
validate_server_form_iff form = ground (arith, eq_iff form.auth_type "header")

-- A token is sent only for the types "bearer" and "header", a header's name only for "header", and
-- the client's id and secret, the token's URL and the scopes only for "oauth".
pub build_create_params_secrets :
    (form : ServerForm)
    → (((build_create_params form).auth_token ≡ none)
        ⊎ (form.auth_type ≡ "bearer")
        ⊎ (form.auth_type ≡ "header"))
      × (((build_create_params form).auth_header ≡ none) ⊎ (form.auth_type ≡ "header"))
      × (((build_create_params form).oauth_token_url ≡ none) ⊎ (form.auth_type ≡ "oauth"))
      × (((build_create_params form).oauth_client_id ≡ none) ⊎ (form.auth_type ≡ "oauth"))
      × (((build_create_params form).oauth_client_secret ≡ none) ⊎ (form.auth_type ≡ "oauth"))
      × (((build_create_params form).oauth_scopes ≡ none) ⊎ (form.auth_type ≡ "oauth"))
unfolding build_create_params
build_create_params_secrets form = ground (
  arith,
  eq_iff form.auth_type "bearer",
  eq_iff form.auth_type "header",
  eq_iff form.auth_type "oauth",
)
