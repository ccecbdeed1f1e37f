-- ===== src/Keys/Create.antt =====
-- ui/src/pages/keys/CreateKeyDialog.tsx: the wizard that creates a key: its state, the checks of its
-- steps, and what a submission sends. The data of the hooks is a record; what `parseInt` makes of
-- digits, the clock and `toISOString` are arguments. A `Set` of models is a list in the order of
-- insertion. The drawing is not modelled.
pub mod Submit
pub mod Requests
pub mod Dialog
mod Tests
use wai_ai.Common.{
  ℕ, zero, suc, ◌+◌, ◌-◌, min, String, Bool, true, false, not, ◌&&◌, ◌||◌, Option, none, some, List,
  [], ◌∷◌, ◌++◌, length, filter, member, ltb, eqb, is_some, if◌then◌else◌, ◌==◌,
}
use wai_ai.Common.Int.{ℤ}
use wai_ai.Common.Text.{truthy, present, trim}
use wai_ai.Keys.Limits.{
  PerLimit, empty_limits, map_limits, expires_at_from_option, parse_limit, validate_limits,
  no_errors,
}
use wai_ai.Toasts.{ToastOptions, info, error}

pub data WizardStep : Type 0 where
  details access limits review : WizardStep

-- What the dialog reads of its props and hooks: the right to limits, the ids of the user's teams,
-- and `me?.id`.
pub record Setting : Type 0 where
  pub can_edit_limits : Bool
  pub user_teams : List String
  pub me_id : Option String

pub record Wizard : Type 0 where
  pub step_index : ℕ
  pub name : String
  pub key_type : String
  pub expires_in : String
  pub name_error : Option String
  pub team_id : String
  pub service_account_id : String
  pub team_error : Option String
  pub service_account_error : Option String
  pub restrict_models : Bool
  pub selected_models : List String
  pub models_error : Option String
  pub limit_texts : PerLimit String
  pub limit_errors : PerLimit (Option String)

abbrev pub no_limit_errors : PerLimit (Option String)
no_limit_errors = record {
  daily_token_limit = none;
  monthly_token_limit = none;
  requests_per_minute = none;
  requests_per_day = none;
}

-- The initial state, to which `handleClose` returns.
abbrev pub empty_wizard : Wizard
empty_wizard = record {
  step_index = 0;
  name = "";
  key_type = "user_key";
  expires_in = "90d";
  name_error = none;
  team_id = "";
  service_account_id = "";
  team_error = none;
  service_account_error = none;
  restrict_models = false;
  selected_models = [];
  models_error = none;
  limit_texts = empty_limits;
  limit_errors = no_limit_errors;
}

-- `stepIds`
unfoldable pub step_ids : Bool → List WizardStep
step_ids can_edit_limits =
    if can_edit_limits
    then details ∷ access ∷ limits ∷ review ∷ []
    else details ∷ access ∷ review ∷ []

-- `safeIndex`
unfoldable pub safe_index : Setting → Wizard → ℕ
unfolding step_ids
safe_index env w = min w.step_index (length (step_ids env.can_edit_limits) - 1)

-- `stepIds[i]`. The index is in range; past the end, `validateStep` would return true as it does for
-- `review`.
unfoldable pub step_at : ℕ → List WizardStep → WizardStep
step_at i [] = review
step_at zero (s ∷ ss) = s
step_at (suc i) (s ∷ ss) = step_at i ss

-- `isLast`
unfoldable pub is_last : Setting → Wizard → Bool
unfolding safe_index
is_last env w = eqb (safe_index env w) (length (step_ids env.can_edit_limits) - 1)

-- `handleKeyTypeChange`
unfoldable pub handle_key_type_change : String → Wizard → Wizard
handle_key_type_change new_type w = record w {
  key_type = new_type;
  team_id = "";
  service_account_id = "";
  team_error = none;
  service_account_error = none;
}

-- `toggleModel`
unfoldable pub toggle_model : String → Wizard → Wizard
toggle_model model w = record w {
  models_error = none;
  selected_models =
      if member model w.selected_models
      then filter (λ m. not (m == model)) w.selected_models
      else w.selected_models ++ model ∷ [];
}

-- The errors that `validateDetails` sets, and its toast.
unfoldable pub name_problem : Wizard → Option String
name_problem w = if truthy (trim w.name) then none else some "Name is required"

unfoldable pub team_problem : Setting → Wizard → Option String
team_problem env w =
    if w.key_type == "user_key" && ltb 1 (length env.user_teams) && not (truthy w.team_id)
    then some "Select a team for this key"
    else if w.key_type == "team_key" && not (truthy w.team_id)
    then some "Team is required"
    else none

unfoldable pub service_account_problem : Wizard → Option String
service_account_problem w =
    if w.key_type == "sa_key" && not (truthy w.service_account_id)
    then some "Service account is required"
    else none

unfoldable pub account_problem : Setting → Wizard → Option String
account_problem env w =
    if w.key_type == "user_key" && not (is_some (present env.me_id))
    then some "Still loading your account. Try again in a moment."
    else none

unfoldable pub toasts_of : Option String → List ToastOptions
toasts_of none = []
toasts_of (some m) = record { message = m; variant = info; duration = none } ∷ []

-- A check: whether the step is in order, the toasts that it shows and the state that it leaves.
pub record Check : Type 0 where
  pub ok : Bool
  pub toasts : List ToastOptions
  pub wizard : Wizard

-- `validateDetails`
unfoldable pub validate_details : Setting → Wizard → Check
unfolding name_problem team_problem service_account_problem account_problem toasts_of
validate_details env w = record {
  ok =
      not (is_some (name_problem w))
      && not (is_some (team_problem env w))
      && not (is_some (service_account_problem w))
      && not (is_some (account_problem env w));
  toasts = toasts_of (account_problem env w);
  wizard = record w {
    name_error = name_problem w;
    team_error = team_problem env w;
    service_account_error = service_account_problem w;
  };
}

unfoldable pub models_problem : Wizard → Option String
models_problem w =
    if w.restrict_models && eqb (length w.selected_models) 0
    then some "Select at least one model, or allow all models"
    else none

-- `validateAccess`
unfoldable pub validate_access : Wizard → Check
unfolding models_problem
validate_access w = record {
  ok = not (is_some (models_problem w));
  toasts = [];
  wizard = record w { models_error = models_problem w };
}

-- `validateLimitsStep`
unfoldable pub validate_limits_step : Wizard → Check
validate_limits_step w = record {
  ok = no_errors (validate_limits w.limit_texts);
  toasts = [];
  wizard = record w { limit_errors = validate_limits w.limit_texts };
}

-- `validateStep`
unfoldable pub validate_step : Setting → WizardStep → Wizard → Check
unfolding validate_details validate_access validate_limits_step
validate_step env details w = validate_details env w
validate_step env access w = validate_access w
validate_step env limits w = validate_limits_step w
validate_step env review w = record { ok = true; toasts = []; wizard = w }
