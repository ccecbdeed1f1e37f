-- ===== src/Controls/Select.antt =====
-- ui/src/components/ui/Select.tsx: the state of the drop-down list and its events. The engine's
-- `toLowerCase` is an argument.
pub mod Highlight
use wai_ai.Common.{
  ℕ, ◌-◌, String, Bool, true, false, not, Option, none, some, List, [], ◌∷◌, filter, length, ltb,
  if◌then◌else◌,
}
use wai_ai.Common.Int.{ℤ, pos, negsuc, ◌+ℤ◌, ◌-ℤ◌, ltb_ℤ}
use wai_ai.Common.Text.{includes}
use wai_ai.Controls.Segmented.{nth}

-- `SelectOption`
pub record Choice : Type 0 where
  pub value : String
  pub label : String

-- The props that the state depends on, and the states.
pub record Dropdown : Type 0 where
  pub options : List Choice
  pub searchable : Bool
  pub disabled : Bool
  pub is_open : Bool
  pub search : String
  pub highlight : ℤ

abbrev pub min_ℤ : ℤ → ℤ → ℤ
min_ℤ a b = if ltb_ℤ b a then b else a

abbrev pub max_ℤ : ℤ → ℤ → ℤ
max_ℤ a b = if ltb_ℤ a b then b else a

-- `closeDropdown`
unfoldable pub close_dropdown : Dropdown → Dropdown
close_dropdown s = record s { is_open = false; search = ""; highlight = pos 0 }

pub data DropdownEvent : Type 0 where
  render_options : List Choice → DropdownEvent
  trigger_key : DropdownEvent
  trigger_click : DropdownEvent
  arrow_down_key arrow_up_key enter_key home_key end_key : DropdownEvent
  click_option : String → DropdownEvent
  enter_option : ℕ → DropdownEvent
  type_search : String → DropdownEvent
  click_outside : DropdownEvent

module _ (lower : String → String) where
  -- `filteredOptions`
  unfoldable pub filtered_options : Dropdown → List Choice
  filtered_options s =
      if s.searchable
      then filter (λ o. includes (lower o.label) (lower s.search)) s.options
      else s.options

  -- `filteredOptions.length - 1`
  unfoldable pub last_option : Dropdown → ℤ
  unfolding filtered_options
  last_option s = pos (length (filtered_options s)) -ℤ pos 1

  -- `clampedHighlight`
  unfoldable pub clamped_highlight : Dropdown → ℤ
  unfolding last_option
  clamped_highlight s = min_ℤ s.highlight (max_ℤ (last_option s) (pos 0))

  -- `filteredOptions[i]`; none is undefined
  unfoldable pub option_at : List Choice → ℤ → Option Choice
  unfolding nth
  option_at shown (pos i) = nth i shown
  option_at shown (negsuc i) = none

  -- The option that Enter takes.
  unfoldable pub highlighted : Dropdown → Option Choice
  unfolding clamped_highlight option_at
  highlighted s = option_at (filtered_options s) (clamped_highlight s)

  -- The state after an event, and the value that `onChange` gets.
  unfoldable pub chosen : Option Choice → Dropdown → Dropdown × Option String
  unfolding close_dropdown
  chosen none s = (s, none)
  chosen (some o) s = (close_dropdown s, some o.value)

  unfoldable pub on_event : DropdownEvent → Dropdown → Dropdown × Option String
  unfolding chosen highlighted close_dropdown last_option
  on_event (render_options os) s = (record s { options = os }, none)
  on_event trigger_key s = (if s.disabled then s else record s { is_open = true }, none)
  on_event trigger_click s = (
    if s.disabled then s else if s.is_open then close_dropdown s else record s { is_open = true },
    none,
  )
  on_event arrow_down_key s =
      (record s { highlight = min_ℤ (s.highlight +ℤ pos 1) (last_option s) }, none)
  on_event arrow_up_key s = (record s { highlight = max_ℤ (s.highlight -ℤ pos 1) (pos 0) }, none)
  on_event enter_key s = chosen (highlighted s) s
  on_event home_key s = (record s { highlight = pos 0 }, none)
  on_event end_key s = (record s { highlight = max_ℤ (last_option s) (pos 0) }, none)
  on_event (click_option v) s = (close_dropdown s, some v)
  on_event (enter_option i) s = (record s { highlight = pos i }, none)
  on_event (type_search t) s = (record s { search = t; highlight = pos 0 }, none)
  on_event click_outside s = (close_dropdown s, none)

  unfoldable pub on_events : List DropdownEvent → Dropdown → Dropdown
  unfolding on_event
  on_events [] s = s
  on_events (e ∷ es) s = on_events es (on_event e s).0
