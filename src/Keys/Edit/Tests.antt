-- ===== src/Keys/Edit/Tests.antt =====
-- A key opened for editing and saved.
use wai_ai.Common.Decimal.{parse_int, print_nat}
use wai_ai.Common.{ℕ, ◌≡◌, refl, String, true, none, some}
use wai_ai.Common.Int.{ℤ, pos}
use wai_ai.Common.Text.{trim}
use wai_ai.Keys.{ApiKey}
use wai_ai.Keys.Limits.{limits_from_key, limit_text}
use wai_ai.Keys.Edit.{open_edit, no_limits, update_params, submit_edit, close, limit_or_zero}
use wai_ai.Keys.Edit.Save.{submit_edit-open_edit}

abbrev exact : ℕ → ℕ
exact n = n

abbrev at_noon : ℤ → String
at_noon t = "2026-01-31T12:00:00.000Z"

abbrev key : ApiKey
key = record {
  id = "k1";
  key_hint = "wai-…1234";
  key_type = "user_key";
  name = "Production backend";
  org_id = "o1";
  team_id = none;
  user_id = some "u1";
  service_account_id = none;
  daily_token_limit = 0;
  monthly_token_limit = 1000000;
  requests_per_minute = 60;
  requests_per_day = 0;
  expires_at = none;
  last_used_at = none;
  created_by = "u1";
  created_at = "2026-01-01T00:00:00Z";
  updated_at = "2026-01-01T00:00:00Z";
}

limit_raised :
    (update_params exact at_noon (pos 0) key true (record (open_edit key) {
      limits = record (limits_from_key key) { requests_per_minute = "120" };
    })).limits
    ≡ record no_limits { requests_per_minute = some (pos 120) }
unfolding update_params open_edit limits_from_key trim limit_text parse_int print_nat
limit_raised = refl

-- The digits before the exponent are taken, and no error is shown.
exponent_cut : limit_or_zero exact "1e5" ≡ some (pos 1)
unfolding limit_or_zero trim parse_int
exponent_cut = refl

trimmed_name : trim key.name ≡ key.name
unfolding trim
trimmed_name = refl

submit_edit-open_edit_example : submit_edit exact at_noon (pos 0) key true (open_edit key) ≡ close
submit_edit-open_edit_example =
    submit_edit-open_edit exact at_noon (pos 0) key true refl trimmed_name (refl, refl, refl, refl)
