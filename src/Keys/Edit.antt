-- ===== src/Keys/Edit.antt =====
-- ui/src/pages/keys/EditKeyDialog.tsx: the state of the dialog that edits a key, and what its form
-- submits. What `parseInt` makes of digits, the clock and `toISOString` are arguments; the request
-- itself, the toasts and the drawing are not modelled.
pub mod Save
mod Tests
use wai_ai.Common.{
  ℕ, ◌+◌, String, Bool, ◌&&◌, not, Option, none, some, eqb, is_some, if◌then◌else◌, ◌==◌,
}
use wai_ai.Common.Decimal.{parse_int}
use wai_ai.Common.Int.{ℤ, pos, eqb_ℤ}
use wai_ai.Common.Text.{truthy, trim}
use wai_ai.Keys.{ApiKey}
use wai_ai.Keys.Limits.{PerLimit, expires_at_from_option, limits_from_key}

-- `limitOrZero`; none is NaN
unfoldable pub limit_or_zero : (ℕ → ℕ) → String → Option ℤ
limit_or_zero engine value = if truthy (trim value) then parse_int engine value else some (pos 0)

pub record EditForm : Type 0 where
  pub name : String
  pub expires_in : String
  pub limits : PerLimit String
  pub name_error : Option String

-- The initial state of the dialog.
unfoldable pub open_edit : ApiKey → EditForm
open_edit k = record {
  name = k.name;
  expires_in = "keep";
  limits = limits_from_key k;
  name_error = none;
}

-- `params`; `expires_at` is `some none` for null.
pub record UpdateKeyParams : Type 0 where
  pub name : Option String
  pub expires_at : Option (Option String)
  pub limits : PerLimit (Option ℤ)

abbrev pub no_limits : PerLimit (Option ℤ)
no_limits = record {
  daily_token_limit = none;
  monthly_token_limit = none;
  requests_per_minute = none;
  requests_per_day = none;
}

-- `if (!Number.isNaN(parsed) && parsed !== apiKey[keyField]) params[param] = parsed`
unfoldable pub changed_limit : Option ℤ → ℕ → Option ℤ
changed_limit none old = none
changed_limit (some parsed) old = if eqb_ℤ parsed (pos old) then none else some parsed

-- The loop over the fields.
unfoldable pub limit_changes : (ℕ → ℕ) → ApiKey → PerLimit String → PerLimit (Option ℤ)
unfolding changed_limit limit_or_zero
limit_changes engine k l = record {
  daily_token_limit = changed_limit (limit_or_zero engine l.daily_token_limit) k.daily_token_limit;
  monthly_token_limit =
      changed_limit (limit_or_zero engine l.monthly_token_limit) k.monthly_token_limit;
  requests_per_minute =
      changed_limit (limit_or_zero engine l.requests_per_minute) k.requests_per_minute;
  requests_per_day = changed_limit (limit_or_zero engine l.requests_per_day) k.requests_per_day;
}

-- `Object.keys(params).length === 0`
unfoldable pub nothing_changed : UpdateKeyParams → Bool
nothing_changed p =
    not (is_some p.name)
    && not (is_some p.expires_at)
    && not (is_some p.limits.daily_token_limit)
    && not (is_some p.limits.monthly_token_limit)
    && not (is_some p.limits.requests_per_minute)
    && not (is_some p.limits.requests_per_day)

-- What a submission does: it shows an error, closes the dialog, or sends a request.
pub data Submission : Type 0 where
  refuse : EditForm → Submission
  close : Submission
  mutate : EditForm → String → UpdateKeyParams → Submission

module _ (engine : ℕ → ℕ) (to_iso : ℤ → String) (now : ℤ) where
  unfoldable pub update_params : ApiKey → Bool → EditForm → UpdateKeyParams
  unfolding limit_changes expires_at_from_option
  update_params k can_edit_limits form = record {
    name = if trim form.name == k.name then none else some (trim form.name);
    expires_at =
        if can_edit_limits && not (form.expires_in == "keep")
        then some (expires_at_from_option to_iso now form.expires_in)
        else none;
    limits = if can_edit_limits then limit_changes engine k form.limits else no_limits;
  }

  -- The end of `handleSubmit`, once the name is there.
  unfoldable pub save : EditForm → String → UpdateKeyParams → Submission
  unfolding nothing_changed
  save form key_id params = if nothing_changed params then close else mutate form key_id params

  -- `handleSubmit`
  unfoldable pub submit_edit : ApiKey → Bool → EditForm → Submission
  unfolding update_params save
  submit_edit k can_edit_limits form =
      if truthy (trim form.name)
      then save (record form { name_error = none }) k.id (update_params k can_edit_limits form)
      else refuse (record form { name_error = some "Name is required" })
