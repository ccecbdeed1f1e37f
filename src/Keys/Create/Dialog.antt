-- ===== src/Keys/Create/Dialog.antt =====
-- ui/src/pages/keys/CreateKeyDialog.tsx: what can be done in the wizard while no request is pending
-- (its inputs are disabled while one is), and what happens after the answer of the request.
pub mod Steps
use wai_ai.Common.{
  ℕ, String, Bool, true, false, not, ◌&&◌, ◌||◌, Option, none, some, List, [], ◌∷◌, ◌++◌, length,
  ltb, eqb, if◌then◌else◌, ◌==◌,
}
use wai_ai.Common.Int.{ℤ}
use wai_ai.Common.Text.{truthy}
use wai_ai.Keys.Limits.{PerLimit}
use wai_ai.Keys.Create.{
  WizardStep, details, access, limits, review, Setting, Wizard, empty_wizard, step_ids, safe_index,
  step_at, handle_key_type_change, toggle_model,
}
use wai_ai.Keys.Create.Submit.{WizardOutcome, handle_back, handle_submit}
use wai_ai.Toasts.{ToastOptions, error}

-- The inputs and buttons of the dialog.
pub data Action : Type 0 where
  edit_name : String → Action
  change_type : String → Action
  choose_team : String → Action
  choose_service_account : String → Action
  choose_expiry : String → Action
  restrict : Bool → Action
  tick_model : String → Action
  edit_limits : PerLimit String → Action
  back : Action
  submit : Action
  cancel : Action

abbrev pub is_details : WizardStep → Bool
is_details details = true
is_details _ = false

-- `step === 'details'`
unfoldable pub at_details : Setting → Wizard → Bool
unfolding safe_index step_at step_ids
at_details env w = is_details (step_at (safe_index env w) (step_ids env.can_edit_limits))

-- `showTeamPicker`
unfoldable pub show_team_picker : Setting → Wizard → Bool
show_team_picker env w =
    w.key_type == "team_key" || w.key_type == "user_key" && ltb 1 (length env.user_teams)

abbrev quiet : Wizard → WizardOutcome
quiet w = record { wizard = w; toasts = []; request = none }

-- The list of teams and the list of service accounts are there only on the first step, and only for
-- the types that ask for them.
unfoldable pub act : (ℕ → ℕ) → (ℤ → String) → ℤ → Setting → Action → Wizard → WizardOutcome
unfolding at_details show_team_picker handle_key_type_change toggle_model handle_back handle_submit
act engine to_iso now env (edit_name s) w = quiet (record w { name = s; name_error = none })
act engine to_iso now env (change_type t) w = quiet (handle_key_type_change t w)
act engine to_iso now env (choose_team t) w = quiet (
    if at_details env w && show_team_picker env w
    then record w { team_id = t; team_error = none }
    else w)
act engine to_iso now env (choose_service_account a) w = quiet (
    if at_details env w && w.key_type == "sa_key"
    then record w { service_account_id = a; service_account_error = none }
    else w)
act engine to_iso now env (choose_expiry e) w = quiet (record w { expires_in = e })
act engine to_iso now env (restrict true) w = quiet (record w { restrict_models = true })
act engine to_iso now env (restrict false) w =
    quiet (record w { restrict_models = false; models_error = none })
act engine to_iso now env (tick_model m) w = quiet (toggle_model m w)
act engine to_iso now env (edit_limits l) w = quiet (record w { limit_texts = l })
act engine to_iso now env back w = quiet (handle_back env w)
act engine to_iso now env submit w = handle_submit engine to_iso now env w
act engine to_iso now env cancel w = quiet empty_wizard

-- Several of them, one after the other.
unfoldable pub act_all : (ℕ → ℕ) → (ℤ → String) → ℤ → Setting → List Action → Wizard → Wizard
act_all engine to_iso now env [] w = w
act_all engine to_iso now env (a ∷ later) w =
    act_all engine to_iso now env later (act engine to_iso now env a w).wizard

-- The answer to the request: the new key's id and, if the response holds it, the key itself.
pub record CreatedKey : Type 0 where
  pub id : String
  pub key : Option String

pub data Effect : Type 0 where
  put_models : String → List String → Effect
  show : ToastOptions → Effect
  close_dialog : Effect
  created : String → Effect

abbrev models_failed : ToastOptions
models_failed = record {
  message = "Key created but model access could not be set";
  variant = error;
  duration = none;
}

unfoldable pub restrict_effects : Wizard → CreatedKey → Bool → List Effect
restrict_effects w new_key put_succeeds =
    if w.restrict_models && ltb 0 (length w.selected_models)
    then put_models new_key.id w.selected_models
      ∷ (if put_succeeds then [] else show models_failed ∷ [])
    else []

unfoldable pub created_effects : Option String → List Effect
created_effects none = []
created_effects (some key) = if truthy key then created key ∷ [] else []

-- `onSuccess`, for the state `w` that the request was sent from.
unfoldable pub on_success : Wizard → CreatedKey → Bool → List Effect
unfolding restrict_effects created_effects
on_success w new_key put_succeeds =
    restrict_effects w new_key put_succeeds ++ close_dialog ∷ created_effects new_key.key
