-- ===== src/Keys/Create/Tests.antt =====
-- A key for a team, created in four steps.
use wai_ai.Common.Decimal.{matches_digits, parse_int}
use wai_ai.Common.{ℕ, ◌≡◌, ◌≢◌, ◌⊎◌, refl, String, true, false, none, some, List, [], ◌∷◌}
use wai_ai.Common.Int.{ℤ, pos}
use wai_ai.Common.Text.{is_space, trim}
use wai_ai.Keys.Limits.{
  empty_limits, expires_at_from_option, no_errors, parse_limit, validate_limit, validate_limits,
}
use wai_ai.Keys.Edit.{no_limits}
use wai_ai.Keys.Create.{Setting, Wizard, empty_wizard, is_last, validate_step}
use wai_ai.Keys.Create.Submit.{CreateKeyParams, handle_submit}
use wai_ai.Keys.Create.Requests.{IsComplete, handle_submit-IsComplete}
use wai_ai.Keys.Create.Dialog.{
  act, Action, edit_name, change_type, choose_team, restrict, tick_model, edit_limits, submit,
  act_all, on_success, put_models, close_dialog, created,
}
use wai_ai.Keys.Create.Dialog.Steps.{IsSound, act_all-IsSound}

abbrev exact : ℕ → ℕ
exact n = n

abbrev at_noon : ℤ → String
at_noon t = "2026-01-31T12:00:00.000Z"

abbrev admin : Setting
admin = record { can_edit_limits = true; user_teams = "t1" ∷ "t2" ∷ []; me_id = some "u1" }

abbrev actions : List Action
actions =
    change_type "team_key"
    ∷ edit_name " Batch jobs "
    ∷ submit
    ∷ choose_team "t2"
    ∷ submit
    ∷ restrict true
    ∷ tick_model "gpt-4o"
    ∷ submit
    ∷ edit_limits (record empty_limits { requests_per_day = "500" })
    ∷ submit
    ∷ []

abbrev complete : Wizard
complete = record empty_wizard {
  step_index = 3;
  name = " Batch jobs ";
  key_type = "team_key";
  team_id = "t2";
  restrict_models = true;
  selected_models = "gpt-4o" ∷ [];
  limit_texts = record empty_limits { requests_per_day = "500" };
}

abbrev params : CreateKeyParams
params = record {
  name = "Batch jobs";
  key_type = "team_key";
  expires_at = some "2026-01-31T12:00:00.000Z";
  user_id = none;
  team_id = some "t2";
  service_account_id = none;
  limits = record no_limits { requests_per_day = some (pos 500) };
}

-- The first submission is refused, since the team is missing.
filled_in : act_all exact at_noon (pos 0) admin actions empty_wizard ≡ complete
unfolding act_all act handle_submit is_space is_last validate_step trim no_errors validate_limits
    validate_limit matches_digits
filled_in = refl

sent : (handle_submit exact at_noon (pos 0) admin complete).request ≡ some params
unfolding handle_submit is_last is_space validate_step trim no_errors validate_limits validate_limit
    matches_digits expires_at_from_option parse_limit parse_int
sent = refl

answered :
    on_success complete (record { id = "k9"; key = some "wai-secret" }) true
    ≡ put_models "k9" ("gpt-4o" ∷ []) ∷ close_dialog ∷ created "wai-secret" ∷ []
unfolding on_success
answered = refl

handle_submit-IsComplete_example :
    IsComplete params × ((complete.restrict_models ≡ false) ⊎ (complete.selected_models ≢ []))
handle_submit-IsComplete_example =
    handle_submit-IsComplete exact at_noon (pos 0) admin complete params sent

act_all-IsSound_example : IsSound admin (act_all exact at_noon (pos 0) admin actions empty_wizard)
act_all-IsSound_example = act_all-IsSound exact at_noon (pos 0) admin actions
