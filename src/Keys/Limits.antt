-- ===== src/Keys/Limits.antt =====
-- ui/src/pages/keys/helpers.ts, the part on expiry and limits, and
-- ui/src/pages/keys/KeyLimitsFields.tsx: the fields of a form that hold a key's limits, their check and
-- what is sent for them. `parseInt` rounds as the engine does, which is an argument, and so are the
-- clock and `toISOString`.
pub mod Texts
mod Tests
use wai_ai.Common.{
  ℕ, ◌*◌, ◌≡◌, String, Bool, ◌&&◌, not, Option, none, some, ltb, is_some, if◌then◌else◌, ◌==◌,
}
use wai_ai.Common.Decimal.{print_nat, parse_int, matches_digits}
use wai_ai.Common.Int.{ℤ, pos, ◌+ℤ◌}
use wai_ai.Common.Text.{truthy, trim}
use wai_ai.Keys.{ApiKey}

-- A value for each of the four limits: `KeyLimitsValue` holds texts, `LimitErrors` messages, and the
-- parameters of a request numbers.
pub record PerLimit (A : Type 0) : Type 0 where
  pub daily_token_limit : A
  pub monthly_token_limit : A
  pub requests_per_minute : A
  pub requests_per_day : A

-- The loop over the four keys.
unfoldable pub map_limits : {A B : Type 0} → (A → B) → PerLimit A → PerLimit B
map_limits f l = record {
  daily_token_limit = f l.daily_token_limit;
  monthly_token_limit = f l.monthly_token_limit;
  requests_per_minute = f l.requests_per_minute;
  requests_per_day = f l.requests_per_day;
}

-- Something holds of each of the four.
abbrev pub EachLimit : {A : Type 0} → (A → Type 0) → PerLimit A → Type 0
EachLimit P l =
    P l.daily_token_limit × P l.monthly_token_limit × P l.requests_per_minute × P l.requests_per_day

-- `Object.keys(errors).length === 0`
unfoldable pub no_errors : PerLimit (Option String) → Bool
no_errors e =
    not (is_some e.daily_token_limit)
    && not (is_some e.monthly_token_limit)
    && not (is_some e.requests_per_minute)
    && not (is_some e.requests_per_day)

abbrev pub empty_limits : PerLimit String
empty_limits = record {
  daily_token_limit = "";
  monthly_token_limit = "";
  requests_per_minute = "";
  requests_per_day = "";
}

-- `days[opt]`; the options come from a list of choices.
abbrev pub option_days : String → Option ℕ
option_days opt =
    if opt == "30d"
    then some 30
    else if opt == "90d"
    then some 90
    else if opt == "1y"
    then some 365
    else none

-- `expiresAtFromOption`
unfoldable pub expires_at_from_option : (ℤ → String) → ℤ → String → Option String
expires_at_from_option to_iso now opt = elim (option_days opt) [
  | none ↦ none
  | some days ↦ some (to_iso (now +ℤ pos (days * 86400000)))
]

-- `parseLimit`; none is undefined
unfoldable pub parse_limit : (ℕ → ℕ) → String → Option ℤ
parse_limit engine value = if truthy (trim value) then parse_int engine value else none

-- The test of one field in `validateLimits`.
unfoldable pub validate_limit : String → Option String
validate_limit value =
    if truthy (trim value) && not (matches_digits (trim value))
    then some "Enter a whole number (0 = unlimited)"
    else none

-- `validateLimits`
unfoldable pub validate_limits : PerLimit String → PerLimit (Option String)
unfolding map_limits
validate_limits limits = map_limits validate_limit limits

-- `s`
unfoldable pub limit_text : ℕ → String
limit_text n = if ltb 0 n then print_nat n else ""

-- The limits of a key, which the response holds field by field.
abbrev pub key_limits : ApiKey → PerLimit ℕ
key_limits k = record {
  daily_token_limit = k.daily_token_limit;
  monthly_token_limit = k.monthly_token_limit;
  requests_per_minute = k.requests_per_minute;
  requests_per_day = k.requests_per_day;
}

-- `limitsFromKey`
unfoldable pub limits_from_key : ApiKey → PerLimit String
unfolding map_limits
limits_from_key k = map_limits limit_text (key_limits k)
