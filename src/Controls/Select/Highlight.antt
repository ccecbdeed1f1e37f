-- ===== src/Controls/Select/Highlight.antt =====
-- Which option is highlighted.
use wai_ai.Common.{
  ℕ, ◌<◌, ◌≡◌, ◌⊎◌, inl, inr, refl, ap, ◌∙◌, String, Option, none, some, List, [], ◌∷◌, arith,
  length, either_way,
}
use wai_ai.Common.Int.{ℤ, pos, negsuc, ◌+ℤ◌, ◌-ℤ◌, ◌≤ℤ◌, int_laws}
use wai_ai.Controls.Segmented.{nth}
use wai_ai.Controls.Segmented.Moves.{nth-some}
use wai_ai.Controls.Select.{
  Choice, Dropdown, min_ℤ, max_ℤ, close_dropdown, DropdownEvent, render_options, trigger_key,
  trigger_click, arrow_down_key, arrow_up_key, enter_key, home_key, end_key, click_option,
  enter_option, type_search, click_outside, filtered_options, last_option, clamped_highlight,
  option_at, highlighted, chosen, on_event, on_events,
}

-- At least -1
abbrev pub AtLeastMinusOne : ℤ → Type 0
AtLeastMinusOne n = negsuc 0 ≤ℤ n

module _ (lower : String → String) where
  last_option-AtLeastMinusOne : (s : Dropdown) → AtLeastMinusOne (last_option lower s)
  unfolding last_option
  last_option-AtLeastMinusOne s = grind int_laws

  arrow_down-AtLeastMinusOne :
      (n l : ℤ) → AtLeastMinusOne n → AtLeastMinusOne l → AtLeastMinusOne (min_ℤ (n +ℤ pos 1) l)
  arrow_down-AtLeastMinusOne n l h k = grind int_laws

  max-AtLeastMinusOne : (n : ℤ) → AtLeastMinusOne (max_ℤ n (pos 0))
  max-AtLeastMinusOne n = grind int_laws

  chosen-AtLeastMinusOne :
      (o : Option Choice) (s : Dropdown)
      → AtLeastMinusOne s.highlight
      → AtLeastMinusOne (chosen lower o s).0.highlight
  unfolding chosen close_dropdown
  chosen-AtLeastMinusOne none s h = h
  chosen-AtLeastMinusOne (some o) s h = omega arith

  on_event-AtLeastMinusOne :
      (e : DropdownEvent) (s : Dropdown)
      → AtLeastMinusOne s.highlight
      → AtLeastMinusOne (on_event lower e s).0.highlight
  unfolding on_event close_dropdown
  on_event-AtLeastMinusOne (render_options os) s h = h
  on_event-AtLeastMinusOne trigger_key s h =
      either_way {A = Dropdown} (λ r. AtLeastMinusOne r.highlight) s.disabled _ _ h h
  on_event-AtLeastMinusOne trigger_click s h =
      either_way {A = Dropdown} (λ r. AtLeastMinusOne r.highlight) s.disabled _ _ h
        (either_way {A = Dropdown} (λ r. AtLeastMinusOne r.highlight) s.is_open _ _ (omega arith) h)
  on_event-AtLeastMinusOne arrow_down_key s h =
      arrow_down-AtLeastMinusOne s.highlight (last_option lower s) h (last_option-AtLeastMinusOne s)
  on_event-AtLeastMinusOne arrow_up_key s h = max-AtLeastMinusOne (s.highlight -ℤ pos 1)
  on_event-AtLeastMinusOne enter_key s h = chosen-AtLeastMinusOne (highlighted lower s) s h
  on_event-AtLeastMinusOne home_key s h = omega arith
  on_event-AtLeastMinusOne end_key s h = max-AtLeastMinusOne (last_option lower s)
  on_event-AtLeastMinusOne (click_option v) s h = omega arith
  on_event-AtLeastMinusOne (enter_option i) s h = omega arith
  on_event-AtLeastMinusOne (type_search t) s h = omega arith
  on_event-AtLeastMinusOne click_outside s h = omega arith

  on_events-AtLeastMinusOne :
      (es : List DropdownEvent) (s : Dropdown)
      → AtLeastMinusOne s.highlight
      → AtLeastMinusOne (on_events lower es s).highlight
  unfolding on_events
  on_events-AtLeastMinusOne [] s h = h
  on_events-AtLeastMinusOne (e ∷ es) s h =
      on_events-AtLeastMinusOne es (on_event lower e s).0 (on_event-AtLeastMinusOne e s h)

  clamped-AtLeastMinusOne :
      (s : Dropdown) → AtLeastMinusOne s.highlight → AtLeastMinusOne (clamped_highlight lower s)
  unfolding clamped_highlight
  clamped-AtLeastMinusOne s h = min_max s.highlight (last_option lower s) h
    where
      min_max : (n l : ℤ) → AtLeastMinusOne n → AtLeastMinusOne (min_ℤ n (max_ℤ l (pos 0)))
      min_max n l h = grind int_laws

  clamped_in_range :
      (s : Dropdown) (i : ℕ)
      → clamped_highlight lower s ≡ pos i
      → 0 < length (filtered_options lower s)
      → i < length (filtered_options lower s)
  unfolding clamped_highlight last_option
  clamped_in_range s i h p = below s.highlight (length (filtered_options lower s)) h p
    where
      below :
          (n : ℤ) (len : ℕ) → min_ℤ n (max_ℤ (pos len -ℤ pos 1) (pos 0)) ≡ pos i → 0 < len → i < len
      below n len h p = grind int_laws

  -- What Enter does in a state.
  abbrev pub EnterOutcome : Dropdown → Type 0
  EnterOutcome s =
      (((on_event lower enter_key s).1 ≡ none)
        × ((clamped_highlight lower s ≡ negsuc 0) ⊎ (filtered_options lower s ≡ [])))
      ⊎ ((i : ℕ) × (o : Choice) × (clamped_highlight lower s ≡ pos i)
          × (nth i (filtered_options lower s) ≡ some o)
          × ((on_event lower enter_key s).1 ≡ some o.value))

  empty-or_some : (xs : List Choice) → (xs ≡ []) ⊎ (0 < length xs)
  empty-or_some [] = inl refl
  empty-or_some (x ∷ xs) = inr (omega arith)

  enter-highlighted :
      (s : Dropdown) (o : Option Choice)
      → highlighted lower s ≡ o
      → (on_event lower enter_key s).1 ≡ (chosen lower o s).1
  unfolding on_event
  enter-highlighted s o e = ap (λ x. (chosen lower x s).1) e

  highlighted_at :
      (s : Dropdown) (n : ℤ)
      → clamped_highlight lower s ≡ n
      → highlighted lower s ≡ option_at lower (filtered_options lower s) n
  unfolding highlighted
  highlighted_at s n e = ap (option_at lower (filtered_options lower s)) e

  enter_at :
      (s : Dropdown) (n : ℤ) → clamped_highlight lower s ≡ n → AtLeastMinusOne n → EnterOutcome s
  unfolding chosen option_at nth
  enter_at s (negsuc n) e h =
      inl (
        enter-highlighted s none (highlighted_at s (negsuc n) e),
        inl (e ∙ ap negsuc (omega arith)),
      )
  enter_at s (pos i) e h = elim (empty-or_some (filtered_options lower s)) [
    | inl none_shown ↦ inl (
      enter-highlighted s none (highlighted_at s (pos i) e ∙ ap (nth i) none_shown),
      inr none_shown,
    )
    | inr p ↦
        let (o, found) = nth-some i (filtered_options lower s) (clamped_in_range s i e p) in
        inr (i, o, e, found, enter-highlighted s (some o) (highlighted_at s (pos i) e ∙ found))
  ]

  -- After any events, Enter chooses the highlighted one of the options shown; it chooses nothing only
  -- if no option is shown, or the highlight is at -1.
  pub on_events-enter :
      (es : List DropdownEvent) (s : Dropdown)
      → AtLeastMinusOne s.highlight
      → EnterOutcome (on_events lower es s)
  on_events-enter es s h =
      enter_at (on_events lower es s) _ refl
        (clamped-AtLeastMinusOne (on_events lower es s) (on_events-AtLeastMinusOne es s h))
