-- ===== src/Sso/Tests.antt =====
-- A configuration, its form, and a test of its issuer.
use wai_ai.Sso.Lists.{no_comma}
use wai_ai.Common.Text.{trim}
use wai_ai.Common.{ℕ, ◌≡◌, refl, String, true, false, none, some, List, [], ◌∷◌}
use wai_ai.Sso.{
  SsoConfig, SsoEvent, press_test, answer, result, save, form_from_config, open_sso, parse_csv,
  handle_submit,
}
use wai_ai.Sso.Badge.{Log}
use wai_ai.Sso.Form.{IsClean, params_of, handle_submit-open_sso}

abbrev config : SsoConfig
config = record {
  enabled = true;
  issuer = "https://id.example.com";
  client_id = "wai";
  has_secret = true;
  redirect_url = "https://wai.example.com/api/v1/auth/oidc/callback";
  scopes = "openid" ∷ "email" ∷ [];
  allowed_domains = [];
  auto_provision = true;
  default_role = "member";
  group_sync = false;
  group_claim = "";
}

loose : parse_csv " openid ,, email" ≡ "openid" ∷ "email" ∷ []
unfolding parse_csv wai_ai.Common.Text.trim
loose = refl

clean : IsClean config
unfolding trim no_comma
clean = record {
  issuer = (refl, refl);
  client_id = (refl, refl);
  redirect_url = refl;
  group_claim = refl;
  scopes = ((refl, refl, refl), ((refl, refl, refl), tt));
  allowed_domains = tt;
}

handle_submit-open_sso_example :
    (handle_submit (open_sso (form_from_config config))).1 ≡ some (save (params_of config))
handle_submit-open_sso_example = handle_submit-open_sso config clean

abbrev tested : List SsoEvent
tested = press_test ∷ answer 1 (result true "ok") ∷ []

abbrev log : Log
log = record { sent = []; succeeded = [] }
