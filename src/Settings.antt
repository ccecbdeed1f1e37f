-- ===== src/Settings.antt =====
-- ui/src/components/settings/limits.ts, nameSlug.ts and OrgSettingsForm.tsx, and
-- ui/src/pages/TeamSettingsTab.tsx: the forms of the settings of an organization and of a team. An
-- amount of money is a floating-point number, so the amounts and their operations are a record that
-- comes from outside; what `parseInt` makes of digits is an argument too. The requests and the drawing
-- are not modelled.
pub mod Forms
pub mod Untouched
mod Tests
use wai_ai.Common.{
  ℕ, String, Bool, true, false, not, ◌&&◌, ◌||◌, Option, none, some, or_default, eqb, is_some,
  if◌then◌else◌, ◌==◌,
}
use wai_ai.Common.Decimal.{print_nat, parse_int}
use wai_ai.Common.Int.{ℤ, pos, negsuc}
use wai_ai.Common.Text.{truthy, trim}

-- Floating-point amounts: `0`, `===`, `< 0`, `String(n)` and `parseFloat`, where none is NaN.
pub record Amounts : Type 1 where
  pub Amount : Type 0
  pub zero_amount : Amount
  pub same : Amount → Amount → Bool
  pub is_negative : Amount → Bool
  pub amount_text : Amount → String
  pub parse_float : String → Option Amount

-- The options of `limitsToParams` and `limitsDirty`
pub record LimitsOptions : Type 0 where
  pub spend : Bool
  pub guardrails : Bool

-- `LimitsValues`
pub record LimitsValues : Type 0 where
  pub daily_token_limit : String
  pub monthly_token_limit : String
  pub requests_per_minute : String
  pub requests_per_day : String
  pub monthly_spend_limit : String
  pub guardrail_pii : Bool
  pub tool_denylist : String

pub record NameSlugValues : Type 0 where
  pub name : String
  pub slug : String

pub record NameSlugErrors : Type 0 where
  pub name : Option String
  pub slug : Option String

-- `validateNameSlug`
unfoldable pub validate_name_slug : NameSlugValues → NameSlugErrors
validate_name_slug values = record {
  name = if truthy (trim values.name) then none else some "Name is required";
  slug = if truthy (trim values.slug) then none else some "Slug is required";
}

-- `isNaN(n) || n < 0 ? 0 : n`
abbrev pub at_least_zero : Option ℤ → ℕ
at_least_zero none = 0
at_least_zero (some (pos n)) = n
at_least_zero (some (negsuc n)) = 0

-- `===` on flags
abbrev pub same_flag : Bool → Bool → Bool
same_flag true b = b
same_flag false b = not b

-- `parseLimit`
unfoldable pub parse_limit : (ℕ → ℕ) → String → ℕ
parse_limit engine value = at_least_zero (parse_int engine value)

module _ (money : Amounts) where
  -- `LimitsRecord`; `LimitsParams` has the same fields.
  pub record LimitsRecord : Type 0 where
    pub daily_token_limit : ℕ
    pub monthly_token_limit : ℕ
    pub requests_per_minute : ℕ
    pub requests_per_day : ℕ
    pub monthly_spend_limit : Option money.Amount
    pub guardrail_pii : Option Bool
    pub guardrail_tool_denylist : Option String

  unfoldable pub amount_of : Option money.Amount → money.Amount
  amount_of none = money.zero_amount
  amount_of (some n) = if money.is_negative n then money.zero_amount else n

  -- `parseSpend`
  unfoldable pub parse_spend : String → money.Amount
  unfolding amount_of
  parse_spend value = amount_of (money.parse_float value)

  -- `limitsFromRecord`
  unfoldable pub limits_from_record : LimitsRecord → LimitsValues
  limits_from_record rec = record {
    daily_token_limit = print_nat rec.daily_token_limit;
    monthly_token_limit = print_nat rec.monthly_token_limit;
    requests_per_minute = print_nat rec.requests_per_minute;
    requests_per_day = print_nat rec.requests_per_day;
    monthly_spend_limit = money.amount_text (or_default rec.monthly_spend_limit money.zero_amount);
    guardrail_pii = or_default rec.guardrail_pii false;
    tool_denylist = or_default rec.guardrail_tool_denylist "";
  }

  module _ (engine : ℕ → ℕ) where
    -- `limitsToParams`
    unfoldable pub limits_to_params : LimitsValues → LimitsOptions → LimitsRecord
    unfolding parse_limit parse_spend
    limits_to_params values opts = record {
      daily_token_limit = parse_limit engine values.daily_token_limit;
      monthly_token_limit = parse_limit engine values.monthly_token_limit;
      requests_per_minute = parse_limit engine values.requests_per_minute;
      requests_per_day = parse_limit engine values.requests_per_day;
      monthly_spend_limit =
          if opts.spend then some (parse_spend values.monthly_spend_limit) else none;
      guardrail_pii = if opts.guardrails then some values.guardrail_pii else none;
      guardrail_tool_denylist = if opts.guardrails then some values.tool_denylist else none;
    }

    -- `limitsDirty`. The parameters hold the spend limit and the guardrails exactly when the options
    -- ask for them.
    unfoldable pub limits_dirty : LimitsValues → LimitsRecord → LimitsOptions → Bool
    unfolding limits_to_params
    limits_dirty values rec opts =
        let p = limits_to_params values opts in
        not (eqb p.daily_token_limit rec.daily_token_limit)
        || not (eqb p.monthly_token_limit rec.monthly_token_limit)
        || not (eqb p.requests_per_minute rec.requests_per_minute)
        || not (eqb p.requests_per_day rec.requests_per_day)
        || opts.spend
          && not (
              money.same (or_default p.monthly_spend_limit money.zero_amount)
                (or_default rec.monthly_spend_limit money.zero_amount))
        || opts.guardrails
          && (not
                (same_flag (or_default p.guardrail_pii false) (or_default rec.guardrail_pii false))
              || not (
                  or_default p.guardrail_tool_denylist ""
                  == or_default rec.guardrail_tool_denylist ""))
