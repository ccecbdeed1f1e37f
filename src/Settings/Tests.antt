-- ===== src/Settings/Tests.antt =====
-- Settings of an organization, opened and edited. Amounts are whole numbers here.
use wai_ai.Common.{ℕ, ◌≡◌, refl, true, false, none, some, eqb, eqb_iff}
use wai_ai.Common.Decimal.{print_nat, parse_int, leading_nat}
use wai_ai.Common.Decimal.RoundTrip.{leading_nat-print_nat}
use wai_ai.Common.Text.{is_space, trim}
use wai_ai.Settings.{Amounts, parse_limit, validate_name_slug}
use wai_ai.Settings.Forms.{Owner, open_settings, org_dirty, team_dirty, submit_org}
use wai_ai.Settings.Untouched.{AreFloats, dirty-open_settings}

abbrev exact : ℕ → ℕ
exact n = n

abbrev whole : Amounts
whole = record {
  Amount = ℕ;
  zero_amount = 0;
  same = eqb;
  is_negative = λ n. false;
  amount_text = print_nat;
  parse_float = leading_nat;
}

whole_read : AreFloats whole
whole_read = record { same_refl = λ n. (eqb_iff n n).1 refl; parse-text = leading_nat-print_nat }

abbrev acme : Owner whole
acme = record {
  basic = record { name = "Acme Corp"; slug = "acme-corp" };
  limits = record {
    daily_token_limit = 0;
    monthly_token_limit = 2000000;
    requests_per_minute = 60;
    requests_per_day = 0;
    monthly_spend_limit = some 250;
    guardrail_pii = some true;
    guardrail_tool_denylist = none;
  };
}

negative_is_unlimited : parse_limit exact "-5" ≡ 0
unfolding parse_limit parse_int is_space
negative_is_unlimited = refl

name_required :
    (submit_org whole exact false true
      (record (open_settings whole acme) { basic = record { name = "  "; slug = "acme" } })).request
    ≡ none
unfolding submit_org validate_name_slug trim
name_required = refl

dirty-open_settings_example :
    (org_dirty whole exact acme false (open_settings whole acme) ≡ false)
    × (team_dirty whole exact acme (open_settings whole acme) ≡ false)
dirty-open_settings_example =
    dirty-open_settings whole whole_read exact acme false (refl, refl, refl, refl) refl
