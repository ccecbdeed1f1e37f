-- ===== src/Keys/Create/Dialog/Steps.antt =====
-- What holds of the wizard whatever is done in it.
use wai_ai.Common.{
  ℕ, suc, ◌+◌, ◌-◌, ◌<◌, ◌≤◌, ◌≡◌, ◌⊎◌, inl, inr, refl, sym, subst, String, Bool, true, false, ◌&&◌,
  none, List, [], ◌∷◌, arith, Bool-cases, either_way, eq_iff, length, if◌then◌else◌, ◌==◌,
}
use wai_ai.Common.Int.{ℤ}
use wai_ai.Keys.Create.{
  Setting, Wizard, empty_wizard, step_ids, safe_index, step_at, handle_key_type_change,
  toggle_model, is_last, Check, WizardStep, validate_step, details, access, limits, review,
  validate_details, validate_access, validate_limits_step,
}
use wai_ai.Keys.Create.Submit.{
  WizardOutcome, after_check, move_on, handle_back, handle_next, handle_create, handle_submit,
  create_from, send_request,
}
use wai_ai.Keys.Create.Dialog.{
  Action, edit_name, change_type, choose_team, choose_service_account, choose_expiry, restrict,
  tick_model, edit_limits, back, submit, cancel, at_details, show_team_picker, act, act_all,
}

-- The current step is one of the steps; no team is kept for a service account's key, and no service
-- account for another.
abbrev pub IsSound : Setting → Wizard → Type 0
IsSound env w =
    (w.step_index < length (step_ids env.can_edit_limits))
    × ((w.key_type == "sa_key" ≡ false) ⊎ (w.team_id ≡ ""))
    × ((w.key_type == "sa_key" ≡ true) ⊎ (w.service_account_id ≡ ""))

guarded {ℓ} :
    {A : Type ℓ} (P : A → Type 0) (b : Bool) (x y : A)
    → (b ≡ true → P x)
    → P y
    → P (if b then x else y)
guarded P true x y p q = p refl
guarded P false x y p q = q

other_types : (t : String) → t ≡ "sa_key" → (t == "team_key" ≡ false) × (t == "user_key" ≡ false)
other_types t e =
    subst (λ u. (u == "team_key" ≡ false) × (u == "user_key" ≡ false)) (sym e) (refl, refl)

choose_team-IsSound :
    (env : Setting) (t : String) (w : Wizard) (here : Bool)
    → IsSound env w
    → (here && show_team_picker env w) ≡ true
    → IsSound env (record w { team_id = t; team_error = none })
unfolding show_team_picker
choose_team-IsSound env t w here (i, _, account) g =
    (i, inl (ground (arith, eq_iff w.key_type "sa_key", other_types w.key_type)), account)

choose_account-IsSound :
    (env : Setting) (t : String) (w : Wizard) (here : Bool)
    → IsSound env w
    → (here && w.key_type == "sa_key") ≡ true
    → IsSound env (record w { service_account_id = t; service_account_error = none })
choose_account-IsSound env t w here (i, team, _) g = (i, team, inl (ground arith))

check-IsSound :
    (env : Setting) (s : WizardStep) (w : Wizard)
    → IsSound env w
    → IsSound env (validate_step env s w).wizard
unfolding validate_step validate_details validate_access validate_limits_step
check-IsSound env details w h = h
check-IsSound env access w h = h
check-IsSound env limits w h = h
check-IsSound env review w h = h

at_step-IsSound :
    (env : Setting) (i : ℕ) (w : Wizard)
    → IsSound env w
    → i < length (step_ids env.can_edit_limits)
    → IsSound env (record w { step_index = i })
at_step-IsSound env i w (_, team, account) h = (h, team, account)

after_check-IsSound :
    (env : Setting) (i : ℕ) (c : Check) (rest : WizardOutcome)
    → IsSound env c.wizard
    → IsSound env rest.wizard
    → i < length (step_ids env.can_edit_limits)
    → IsSound env (after_check i c rest).wizard
unfolding after_check
after_check-IsSound env i c rest h k lt =
    either_way {A = WizardOutcome} (λ o. IsSound env o.wizard) c.ok _ _ k
      (at_step-IsSound env i c.wizard h lt)

step_count : (b : Bool) → 2 < length (step_ids b)
unfolding step_ids
step_count true = omega arith
step_count false = omega arith

move_on-IsSound :
    (env : Setting) (i : ℕ) (c : Check)
    → IsSound env c.wizard
    → i + 1 < length (step_ids env.can_edit_limits)
    → IsSound env (move_on i c).wizard
unfolding move_on
move_on-IsSound env i c h lt =
    either_way (IsSound env) c.ok _ _ (at_step-IsSound env (i + 1) c.wizard h lt) h

next_in_range :
    (env : Setting) (w : Wizard)
    → is_last env w ≡ false
    → safe_index env w + 1 < length (step_ids env.can_edit_limits)
unfolding is_last safe_index
next_in_range env w h = ground (arith, step_count env.can_edit_limits)

back_in_range :
    (env : Setting) (w : Wizard) → safe_index env w - 1 < length (step_ids env.can_edit_limits)
unfolding safe_index
back_in_range env w = omega (arith, step_count env.can_edit_limits)

next-IsSound :
    (env : Setting) (w : Wizard)
    → is_last env w ≡ false
    → IsSound env w
    → IsSound env (handle_next env w).wizard
unfolding handle_next
next-IsSound env w last h =
    let i = safe_index env w in
    let s = step_at i (step_ids env.can_edit_limits) in
    move_on-IsSound env i (validate_step env s w) (check-IsSound env s w h)
      (next_in_range env w last)

module _ (engine : ℕ → ℕ) (to_iso : ℤ → String) (now : ℤ) where
  create_from-IsSound :
      (env : Setting) (w : Wizard) (i : ℕ) (ss : List WizardStep) (checked : Wizard)
      → IsSound env checked
      → i + length ss ≤ length (step_ids env.can_edit_limits)
      → IsSound env (create_from engine to_iso now env w i ss checked).wizard
  unfolding create_from send_request
  create_from-IsSound env w i [] checked h le = h
  create_from-IsSound env w i (s ∷ []) checked h le = h
  create_from-IsSound env w i (s ∷ t ∷ ss) checked h le =
      let c = validate_step env s checked in
      let sound = check-IsSound env s checked h in
      after_check-IsSound env i c _ sound
        (create_from-IsSound env w (suc i) (t ∷ ss) c.wizard sound (omega arith)) (omega arith)

  submit-IsSound :
      (env : Setting) (w : Wizard)
      → IsSound env w
      → IsSound env (handle_submit engine to_iso now env w).wizard
  unfolding handle_submit handle_create
  submit-IsSound env w h = elim (Bool-cases (is_last env w)) [
    | inl e ↦ rw e (create_from-IsSound env w 0 (step_ids env.can_edit_limits) w h (omega arith))
    | inr e ↦ rw e (next-IsSound env w e h)
  ]

  act-IsSound :
      (env : Setting) (a : Action) (w : Wizard)
      → IsSound env w
      → IsSound env (act engine to_iso now env a w).wizard
  unfolding act handle_key_type_change toggle_model handle_back
  act-IsSound env (edit_name s) w h = h
  act-IsSound env (change_type t) w (i, _, _) = (i, inr refl, inr refl)
  act-IsSound env (choose_team t) w h =
      guarded (IsSound env) (at_details env w && show_team_picker env w) _ w
        (choose_team-IsSound env t w (at_details env w) h) h
  act-IsSound env (choose_service_account t) w h =
      guarded (IsSound env) (at_details env w && w.key_type == "sa_key") _ w
        (choose_account-IsSound env t w (at_details env w) h) h
  act-IsSound env (choose_expiry e) w h = h
  act-IsSound env (restrict true) w h = h
  act-IsSound env (restrict false) w h = h
  act-IsSound env (tick_model m) w h = h
  act-IsSound env (edit_limits l) w h = h
  act-IsSound env back w h = at_step-IsSound env (safe_index env w - 1) w h (back_in_range env w)
  act-IsSound env submit w h = submit-IsSound env w h
  act-IsSound env cancel w h = (omega (arith, step_count env.can_edit_limits), inr refl, inr refl)

  act_all_keeps :
      (env : Setting) (actions : List Action) (w : Wizard)
      → IsSound env w
      → IsSound env (act_all engine to_iso now env actions w)
  unfolding act_all
  act_all_keeps env [] w h = h
  act_all_keeps env (a ∷ later) w h =
      act_all_keeps env later (act engine to_iso now env a w).wizard (act-IsSound env a w h)

  -- Whatever is done, the current step is one of the steps, and no team is kept for a service account's
  -- key and no service account for another.
  pub act_all-IsSound :
      (env : Setting) (actions : List Action)
      → IsSound env (act_all engine to_iso now env actions empty_wizard)
  act_all-IsSound env actions =
      act_all_keeps env actions empty_wizard
        (omega (arith, step_count env.can_edit_limits), inr refl, inr refl)
