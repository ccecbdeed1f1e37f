-- ===== src/Keys/Create/Requests.antt =====
-- The request of the wizard: what is checked before it is sent, and what it holds.
use wai_ai.Common.{
  ℕ, ◌≡◌, ◌≢◌, ◌⊎◌, inl, inr, refl, String, Bool, true, false, not, ◌&&◌, ◌||◌, Option, none, some,
  [], arith, eq_iff, if◌then◌else◌, ◌==◌, is_some, sym, subst,
}
use wai_ai.Common.Int.{ℤ, pos, negsuc}
use wai_ai.Common.Text.{truthy, present}
use wai_ai.Keys.Limits.{
  PerLimit, EachLimit, map_limits, parse_limit, validate_limit, validate_limits, no_errors,
}
use wai_ai.Keys.Limits.Texts.{sent_limit}
use wai_ai.Keys.Edit.{no_limits}
use wai_ai.Keys.Create.{
  Setting, Wizard, Check, step_ids, is_last, validate_step, validate_details, validate_access,
  validate_limits_step, name_problem, team_problem, service_account_problem, account_problem,
  models_problem,
}
use wai_ai.Keys.Create.Submit.{
  CreateKeyParams, WizardOutcome, after_check, send_request, create_from, handle_create,
  handle_submit, handle_next, build_params, move_on,
}

-- A number that is not negative, or none.
abbrev pub IsWhole : Option ℤ → Type 0
IsWhole none = Unit
IsWhole (some (pos n)) = Unit
IsWhole (some (negsuc n)) = ⊥

-- A text that is there and not empty.
abbrev pub IsGiven : Option String → Type 0
IsGiven o = (s : String) × (o ≡ some s) × (truthy s ≡ true)

-- A request names the key and the owner that its type asks for, and its limits are not negative.
abbrev pub IsComplete : CreateKeyParams → Type 0
IsComplete p =
    (truthy p.name ≡ true)
    × ((p.key_type ≢ "user_key") ⊎ IsGiven p.user_id)
    × ((p.key_type ≢ "team_key") ⊎ IsGiven p.team_id)
    × ((p.key_type ≢ "sa_key") ⊎ IsGiven p.service_account_id)
    × EachLimit IsWhole p.limits

request_of_choice :
    (b : Bool) (x y : WizardOutcome) (p : CreateKeyParams)
    → y.request ≡ none
    → (if b then x else y).request ≡ some p
    → (b ≡ true) × (x.request ≡ some p)
request_of_choice true x y p n h = (refl, h)
request_of_choice false x y p n h = cc

after_check-request :
    (i : ℕ) (c : Check) (rest : WizardOutcome) (p : CreateKeyParams)
    → (after_check i c rest).request ≡ some p
    → (c.ok ≡ true) × (rest.request ≡ some p)
unfolding after_check
after_check-request i c rest p h = request_of_choice c.ok _ _ p refl h

IsWhole-parse_limit :
    (engine : ℕ → ℕ) (v : String) → validate_limit v ≡ none → IsWhole (parse_limit engine v)
IsWhole-parse_limit engine v h = elim (sent_limit engine v h) [
  | inl (_, e) ↦ subst IsWhole (sym e) tt
  | inr (_, e) ↦ subst IsWhole (sym e) tt
]

none_of_not_some : (o : Option String) → is_some o ≡ false → o ≡ none
none_of_not_some none h = refl
none_of_not_some (some s) h = cc

map_limits-IsWhole :
    (engine : ℕ → ℕ) (l : PerLimit String)
    → no_errors (validate_limits l) ≡ true
    → EachLimit IsWhole (map_limits (parse_limit engine) l)
unfolding no_errors validate_limits map_limits
map_limits-IsWhole engine l h =
    let whole : (v : String) → is_some (validate_limit v) ≡ false → IsWhole (parse_limit engine v) =
      λ v e. IsWhole-parse_limit engine v (none_of_not_some (validate_limit v) e) in
    (
      whole l.daily_token_limit (ground arith),
      whole l.monthly_token_limit (ground arith),
      whole l.requests_per_minute (ground arith),
      whole l.requests_per_day (ground arith),
    )

details_parts :
    (env : Setting) (w : Wizard)
    → (validate_details env w).ok ≡ true
    → (is_some (name_problem w) ≡ false)
      × (is_some (team_problem env w) ≡ false)
      × (is_some (service_account_problem w) ≡ false)
      × (is_some (account_problem env w) ≡ false)
unfolding validate_details
details_parts env w h = (ground arith, ground arith, ground arith, ground arith)

models_given :
    (w : Wizard)
    → (validate_access w).ok ≡ true
    → (w.restrict_models ≡ false) ⊎ (w.selected_models ≢ [])
unfolding validate_access models_problem
models_given w h = ground arith

module _ (engine : ℕ → ℕ) (to_iso : ℤ → String) (now : ℤ) where
  sent-params :
      (env : Setting) (w v : Wizard) (p : CreateKeyParams)
      → (send_request engine to_iso now env w v).request ≡ some p
      → p ≡ build_params engine to_iso now env w
  unfolding send_request
  sent-params env w v p h = cc

  -- The checks that stand before a request.
  create_checks :
      (env : Setting) (w : Wizard) (p : CreateKeyParams) (b : Bool)
      → (create_from engine to_iso now env w 0 (step_ids b) w).request ≡ some p
      → ((validate_details env w).ok ≡ true)
        × ((validate_access w).ok ≡ true)
        × ((b ≡ false) ⊎ ((validate_limits_step w).ok ≡ true))
        × (p ≡ build_params engine to_iso now env w)
  unfolding create_from step_ids after_check validate_step
  create_checks env w p true h =
      let w1 = (validate_details env w).wizard in
      let w2 = (validate_access w1).wizard in
      let (d, h1) = after_check-request 0 (validate_details env w) _ p h in
      let (a, h2) = after_check-request 1 (validate_access w1) _ p h1 in
      let (l, h3) = after_check-request 2 (validate_limits_step w2) _ p h2 in
      (d, a, inr l, sent-params env w (validate_limits_step w2).wizard p h3)
  create_checks env w p false h =
      let w1 = (validate_details env w).wizard in
      let (d, h1) = after_check-request 0 (validate_details env w) _ p h in
      let (a, h2) = after_check-request 1 (validate_access w1) _ p h1 in
      (d, a, inl refl, sent-params env w (validate_access w1).wizard p h2)

  type_is : (t u : String) → (t ≢ u) ⊎ (t ≡ u)
  type_is t u = ground (arith, eq_iff t u)

  IsGiven-present : (o : Option String) → is_some (present o) ≡ true → IsGiven o
  IsGiven-present none h = cc
  IsGiven-present (some s) h = (s, refl, ground arith)

  IsGiven-text : (s : String) → truthy s ≡ true → IsGiven (if truthy s then some s else none)
  IsGiven-text s h = rw h (s, refl, h)

  user_present :
      (t : String) (o : Option String)
      → t ≡ "user_key"
      → is_some {A = String} (
          if t == "user_key" && not (is_some (present o))
          then some "Still loading your account. Try again in a moment."
          else none)
        ≡ false
      → is_some (present o) ≡ true
  user_present t o e h = ground (arith, eq_iff t "user_key")

  limits-IsWhole_if :
      (b : Bool) (l : PerLimit String)
      → no_errors (validate_limits l) ≡ true
      → EachLimit IsWhole (if b then map_limits (parse_limit engine) l else no_limits)
  limits-IsWhole_if true l h = map_limits-IsWhole engine l h
  limits-IsWhole_if false l h = (tt, tt, tt, tt)

  user-IsGiven :
      (env : Setting) (w : Wizard)
      → is_some (account_problem env w) ≡ false
      → let p = build_params engine to_iso now env w in
        (p.key_type ≢ "user_key") ⊎ IsGiven p.user_id
  unfolding account_problem build_params
  user-IsGiven env w h = elim (type_is w.key_type "user_key") [
    | inl n ↦ inl n
    | inr e ↦ inr (
        subst (λ t. IsGiven (if t == "user_key" then env.me_id else none)) (sym e)
          (IsGiven-present env.me_id (user_present w.key_type env.me_id e h)))
  ]

  team-IsGiven :
      (env : Setting) (w : Wizard)
      → is_some (team_problem env w) ≡ false
      → let p = build_params engine to_iso now env w in
        (p.key_type ≢ "team_key") ⊎ IsGiven p.team_id
  unfolding team_problem build_params
  team-IsGiven env w h = elim (type_is w.key_type "team_key") [
    | inl n ↦ inl n
    | inr e ↦ inr (
        subst
          (λ t. IsGiven (
            if (t == "team_key" || t == "user_key") && truthy w.team_id
            then some w.team_id
            else none))
          (sym e) (IsGiven-text w.team_id (ground (arith, eq_iff w.key_type "team_key"))))
  ]

  account-IsGiven :
      (env : Setting) (w : Wizard)
      → is_some (service_account_problem w) ≡ false
      → let p = build_params engine to_iso now env w in
        (p.key_type ≢ "sa_key") ⊎ IsGiven p.service_account_id
  unfolding service_account_problem build_params
  account-IsGiven env w h = elim (type_is w.key_type "sa_key") [
    | inl n ↦ inl n
    | inr e ↦ inr (
        subst
          (λ t. IsGiven (
            if t == "sa_key" && truthy w.service_account_id
            then some w.service_account_id
            else none))
          (sym e) (IsGiven-text w.service_account_id (ground (arith, eq_iff w.key_type "sa_key"))))
  ]

  limits-IsWhole :
      (env : Setting) (w : Wizard)
      → (env.can_edit_limits ≡ false) ⊎ ((validate_limits_step w).ok ≡ true)
      → EachLimit IsWhole (build_params engine to_iso now env w).limits
  unfolding validate_limits_step build_params
  limits-IsWhole env w h = elim h [
    | inl e ↦ rw e (tt, tt, tt, tt)
    | inr ok ↦ limits-IsWhole_if env.can_edit_limits w.limit_texts ok
  ]

  name_given :
      (env : Setting) (w : Wizard)
      → is_some (name_problem w) ≡ false
      → truthy (build_params engine to_iso now env w).name ≡ true
  unfolding name_problem build_params
  name_given env w h = ground arith

  create-IsComplete :
      (env : Setting) (w : Wizard) (p : CreateKeyParams)
      → (handle_create engine to_iso now env w).request ≡ some p
      → IsComplete p × ((w.restrict_models ≡ false) ⊎ (w.selected_models ≢ []))
  unfolding handle_create
  create-IsComplete env w p h =
      let (d, a, l, e) = create_checks env w p env.can_edit_limits h in
      let (n, t, s, u) = details_parts env w d in
      (
        subst IsComplete (sym e) (
          name_given env w n,
          user-IsGiven env w u,
          team-IsGiven env w t,
          account-IsGiven env w s,
          limits-IsWhole env w l,
        ),
        models_given w a,
      )

  -- A request is sent only with a name, with the user, the team or the service account that the type
  -- of the key asks for, with no negative limit, and with a model chosen if the models are restricted.
  pub handle_submit-IsComplete :
      (env : Setting) (w : Wizard) (p : CreateKeyParams)
      → (handle_submit engine to_iso now env w).request ≡ some p
      → IsComplete p × ((w.restrict_models ≡ false) ⊎ (w.selected_models ≢ []))
  unfolding handle_submit handle_next move_on
  handle_submit-IsComplete env w p h =
      let (_, sent) = request_of_choice (is_last env w) _ _ p refl h in
      create-IsComplete env w p sent
