-- ===== src/Settings/Untouched.antt =====
-- A form of settings that nobody has touched.
use wai_ai.Common.{
  ℕ, ◌≡◌, refl, ap, String, Bool, true, false, not, ◌&&◌, ◌||◌, none, some, or_default, eqb,
  eqb_iff, eq_iff, ◌==◌, if◌then◌else◌,
}
use wai_ai.Common.Decimal.{print_nat}
use wai_ai.Common.Decimal.RoundTrip.{parse_int-print_nat}
use wai_ai.Settings.{
  Amounts, LimitsOptions, LimitsRecord, same_flag, parse_limit, amount_of, parse_spend,
  limits_from_record, limits_dirty,
}
use wai_ai.Settings.Forms.{
  Owner, open_settings, basic_dirty, org_dirty, team_dirty, org_options, team_options,
}

-- What the browser documents of numbers: `===` holds of a number that is not NaN and itself, and
-- `parseFloat` reads back the text that `String` made of a finite one.
pub record AreFloats (money : Amounts) : Type 0 where
  pub same_refl : (n : money.Amount) → money.same n n ≡ true
  pub parse-text : (n : money.Amount) → money.parse_float (money.amount_text n) ≡ some n

-- The engine reads the limits of a record exactly.
abbrev pub IsExact : (ℕ → ℕ) → (money : Amounts) → LimitsRecord money → Type 0
IsExact engine money rec =
    (engine rec.daily_token_limit ≡ rec.daily_token_limit)
    × (engine rec.monthly_token_limit ≡ rec.monthly_token_limit)
    × (engine rec.requests_per_minute ≡ rec.requests_per_minute)
    × (engine rec.requests_per_day ≡ rec.requests_per_day)

parse_limit-print_nat :
    (engine : ℕ → ℕ) (n : ℕ) → engine n ≡ n → eqb (parse_limit engine (print_nat n)) n ≡ true
unfolding parse_limit
parse_limit-print_nat engine n h = rw (parse_int-print_nat engine n h) ((eqb_iff n n).1 refl)

same_flag_refl : (b : Bool) → same_flag b b ≡ true
same_flag_refl true = refl
same_flag_refl false = refl

or_false : (a b : Bool) → a ≡ false → b ≡ false → (a || b) ≡ false
or_false true b p q = cc
or_false false b p q = q

not_changed :
    (engine : ℕ → ℕ) (n : ℕ) → engine n ≡ n → not (eqb (parse_limit engine (print_nat n)) n) ≡ false
not_changed engine n h = ap not (parse_limit-print_nat engine n h)

guardrails_same :
    (b f : Bool) (t : String)
    → (b
        && (not (same_flag (or_default (if b then some f else none) false) f)
            || not (or_default (if b then some t else none) "" == t)))
      ≡ false
guardrails_same true f t = or_false _ _ (ap not (same_flag_refl f)) (ap not ((eq_iff t t).1 refl))
guardrails_same false f t = refl

module _ (money : Amounts) (floats : AreFloats money) where
  parse_spend-text :
      (n : money.Amount)
      → money.is_negative n ≡ false
      → money.same (parse_spend money (money.amount_text n)) n ≡ true
  unfolding parse_spend amount_of
  parse_spend-text n h = rw (floats.parse-text n, h) (floats.same_refl n)

  spend_same :
      (b : Bool) (n : money.Amount)
      → money.is_negative n ≡ false
      → (b
          && not (
              money.same
                (or_default
                  (if b then some (parse_spend money (money.amount_text n)) else none)
                  money.zero_amount)
                n))
        ≡ false
  spend_same true n h = ap not (parse_spend-text n h)
  spend_same false n h = refl

  limits_dirty-limits_from_record :
      (engine : ℕ → ℕ) (rec : LimitsRecord money) (opts : LimitsOptions)
      → IsExact engine money rec
      → money.is_negative (or_default rec.monthly_spend_limit money.zero_amount) ≡ false
      → limits_dirty money engine (limits_from_record money rec) rec opts ≡ false
  unfolding limits_dirty limits_from_record
  limits_dirty-limits_from_record engine rec opts (a, b, c, d) h =
      or_false _ _
        (or_false _ _
          (or_false _ _
            (or_false _ _
              (or_false _ _ (not_changed engine rec.daily_token_limit a)
                (not_changed engine rec.monthly_token_limit b))
              (not_changed engine rec.requests_per_minute c))
            (not_changed engine rec.requests_per_day d))
          (spend_same opts.spend (or_default rec.monthly_spend_limit money.zero_amount) h))
        (guardrails_same opts.guardrails (or_default rec.guardrail_pii false)
          (or_default rec.guardrail_tool_denylist ""))

  basic_dirty-same : (o : Owner money) → basic_dirty o.basic o.basic ≡ false
  unfolding basic_dirty
  basic_dirty-same o =
      or_false _ _ (ap not ((eq_iff o.basic.name o.basic.name).1 refl))
        (ap not ((eq_iff o.basic.slug o.basic.slug).1 refl))

  and_false : (a b : Bool) → b ≡ false → (a && b) ≡ false
  and_false true b h = h
  and_false false b h = refl

  -- The settings of an organization or of a team with limits that the engine reads exactly and no
  -- negative spend limit are not dirty as they were opened, if `parseFloat` reads back the text of an
  -- amount.
  pub dirty-open_settings :
      (engine : ℕ → ℕ) (o : Owner money) (limits_read_only : Bool)
      → IsExact engine money o.limits
      → money.is_negative (or_default o.limits.monthly_spend_limit money.zero_amount) ≡ false
      → (org_dirty money engine o limits_read_only (open_settings money o) ≡ false)
        × (team_dirty money engine o (open_settings money o) ≡ false)
  unfolding org_dirty team_dirty open_settings
  dirty-open_settings engine o ro exact h = (
    or_false _ _ (basic_dirty-same o) (
        and_false (not ro) _ (limits_dirty-limits_from_record engine o.limits org_options exact h)),
    or_false _ _ (basic_dirty-same o)
        (limits_dirty-limits_from_record engine o.limits team_options exact h),
  )
