-- ===== src/Keys/Create/Submit.antt =====
-- ui/src/pages/keys/CreateKeyDialog.tsx: the buttons of the wizard, and the request that creates a key
-- (`CreateAPIKeyParams` of ui/src/hooks/useAPIKeys.ts).
use wai_ai.Common.{
  ℕ, suc, ◌+◌, ◌-◌, String, ◌&&◌, ◌||◌, Option, none, some, List, [], ◌∷◌, ◌++◌, if◌then◌else◌,
  ◌==◌,
}
use wai_ai.Common.Int.{ℤ}
use wai_ai.Common.Text.{truthy, trim}
use wai_ai.Keys.Limits.{PerLimit, map_limits, expires_at_from_option, parse_limit}
use wai_ai.Keys.Edit.{no_limits}
use wai_ai.Keys.Create.{
  WizardStep, Setting, Wizard, Check, step_ids, safe_index, step_at, is_last, validate_step,
}
use wai_ai.Toasts.{ToastOptions}

pub record CreateKeyParams : Type 0 where
  pub name : String
  pub key_type : String
  pub expires_at : Option String
  pub user_id : Option String
  pub team_id : Option String
  pub service_account_id : Option String
  pub limits : PerLimit (Option ℤ)

-- What a button leaves: the state, the toasts shown, and the request that is sent.
pub record WizardOutcome : Type 0 where
  pub wizard : Wizard
  pub toasts : List ToastOptions
  pub request : Option CreateKeyParams

-- The rest of `handleCreate` after a check of the step `i`.
unfoldable pub after_check : ℕ → Check → WizardOutcome → WizardOutcome
after_check i check rest =
    if check.ok then record rest { toasts = check.toasts ++ rest.toasts } else record {
      wizard = record check.wizard { step_index = i };
      toasts = check.toasts;
      request = none;
    }

-- `handleNext`, after the check of the step.
unfoldable pub move_on : ℕ → Check → WizardOutcome
move_on i check = record {
  wizard = if check.ok then record check.wizard { step_index = i + 1 } else check.wizard;
  toasts = check.toasts;
  request = none;
}

-- `handleNext`
unfoldable pub handle_next : Setting → Wizard → WizardOutcome
unfolding move_on
handle_next env w =
    let i = safe_index env w in
    move_on i (validate_step env (step_at i (step_ids env.can_edit_limits)) w)

-- `handleBack`
unfoldable pub handle_back : Setting → Wizard → Wizard
handle_back env w = record w { step_index = safe_index env w - 1 }

module _ (engine : ℕ → ℕ) (to_iso : ℤ → String) (now : ℤ) where
  -- `buildParams`
  unfoldable pub build_params : Setting → Wizard → CreateKeyParams
  build_params env w = record {
    name = trim w.name;
    key_type = w.key_type;
    expires_at = expires_at_from_option to_iso now w.expires_in;
    user_id = if w.key_type == "user_key" then env.me_id else none;
    team_id =
        if (w.key_type == "team_key" || w.key_type == "user_key") && truthy w.team_id
        then some w.team_id
        else none;
    service_account_id =
        if w.key_type == "sa_key" && truthy w.service_account_id
        then some w.service_account_id
        else none;
    limits =
        if env.can_edit_limits then map_limits (parse_limit engine) w.limit_texts else no_limits;
  }

  -- `createKey.mutate`, once every step is in order.
  unfoldable pub send_request : Setting → Wizard → Wizard → WizardOutcome
  unfolding build_params
  send_request env w checked = record {
    wizard = checked;
    toasts = [];
    request = some (build_params env w);
  }

  -- The loop of `handleCreate` from the step `i` on, for the state `w` of the submission; `checked` is
  -- that state with the errors that are set so far. The last step is not checked.
  unfoldable pub create_from : Setting → Wizard → ℕ → List WizardStep → Wizard → WizardOutcome
  unfolding after_check send_request
  create_from env w i [] checked = send_request env w checked
  create_from env w i (s ∷ []) checked = send_request env w checked
  create_from env w i (s ∷ t ∷ ss) checked =
      let check = validate_step env s checked in
      let rest = create_from env w (suc i) (t ∷ ss) check.wizard in after_check i check rest

  -- `handleCreate`, up to the answer
  unfoldable pub handle_create : Setting → Wizard → WizardOutcome
  unfolding create_from
  handle_create env w = create_from env w 0 (step_ids env.can_edit_limits) w

  -- `handleSubmit`, when no request is pending
  unfoldable pub handle_submit : Setting → Wizard → WizardOutcome
  unfolding handle_create handle_next
  handle_submit env w = if is_last env w then handle_create env w else handle_next env w
