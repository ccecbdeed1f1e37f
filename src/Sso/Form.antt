-- ===== src/Sso/Form.antt =====
-- What the form of an unchanged configuration sends.
use wai_ai.Common.{◌≡◌, refl, ap, ◌∙◌, true, none, some, All}
use wai_ai.Common.Text.{trim, truthy}
use wai_ai.Sso.{
  SsoConfig, SaveSsoParams, SsoState, save, form_from_config, form_to_params, validate, open_sso,
  handle_submit,
}
use wai_ai.Sso.Lists.{IsItem, parse_csv-to_csv}

-- A configuration with an issuer and a client, with no blanks at the ends of its texts, and with scopes
-- and domains that are not empty and hold no comma.
pub record IsClean (c : SsoConfig) : Type 0 where
  pub issuer : (trim c.issuer ≡ c.issuer) × (truthy c.issuer ≡ true)
  pub client_id : (trim c.client_id ≡ c.client_id) × (truthy c.client_id ≡ true)
  pub redirect_url : trim c.redirect_url ≡ c.redirect_url
  pub group_claim : trim c.group_claim ≡ c.group_claim
  pub scopes : All IsItem c.scopes
  pub allowed_domains : All IsItem c.allowed_domains

-- The configuration as it is, with no new secret.
abbrev pub params_of : SsoConfig → SaveSsoParams
params_of c = record {
  enabled = c.enabled;
  issuer = c.issuer;
  client_id = c.client_id;
  client_secret = none;
  redirect_url = c.redirect_url;
  scopes = c.scopes;
  allowed_domains = c.allowed_domains;
  auto_provision = c.auto_provision;
  default_role = c.default_role;
  group_sync = c.group_sync;
  group_claim = c.group_claim;
}

form_to_params-form_from_config :
    (c : SsoConfig) → IsClean c → form_to_params (form_from_config c) ≡ params_of c
unfolding form_to_params form_from_config
form_to_params-form_from_config c h =
    rw
      (
        h.issuer.0,
        h.client_id.0,
        h.redirect_url,
        h.group_claim,
        parse_csv-to_csv c.scopes h.scopes,
        parse_csv-to_csv c.allowed_domains h.allowed_domains,
      )
      (unfold trim in refl)

submit_sends :
    (s : SsoState)
    → truthy (trim s.form.issuer) ≡ true
    → truthy (trim s.form.client_id) ≡ true
    → (handle_submit s).1 ≡ some (save (form_to_params s.form))
unfolding handle_submit validate
submit_sends s h k = rw (h, k) refl

-- The form of a configuration, submitted as it was opened, saves that configuration and no new secret, if
-- its texts have no blanks at their ends, its issuer and client are given, and each of its scopes and
-- domains is not empty and holds no comma.
pub handle_submit-open_sso :
    (c : SsoConfig)
    → IsClean c
    → (handle_submit (open_sso (form_from_config c))).1 ≡ some (save (params_of c))
unfolding open_sso form_from_config
handle_submit-open_sso c h =
    submit_sends (open_sso (form_from_config c)) (rw h.issuer.0 h.issuer.1)
      (rw h.client_id.0 h.client_id.1)
    ∙ ap (λ q. some (save q)) (form_to_params-form_from_config c h)
