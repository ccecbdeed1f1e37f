-- ===== src/Controls/Tests.antt =====
-- Segments of which one is disabled, and a list of two models that can be searched.
use wai_ai.Common.Text.{includes}
use wai_ai.Common.{◌≡◌, refl, String, true, false, none, some, List, [], ◌∷◌, arith}
use wai_ai.Common.Int.{pos, negsuc, ◌+ℤ◌, ◌-ℤ◌}
use wai_ai.Controls.Segmented.{Segment, arrow_right, arrow_left, changed_to}
use wai_ai.Controls.Select.{
  Choice, Dropdown, DropdownEvent, render_options, trigger_key, arrow_down_key, enter_key,
  type_search, on_event, on_events, clamped_highlight,
}
use wai_ai.Controls.Select.Highlight.{EnterOutcome, on_events-enter}

abbrev segments : List Segment
segments =
    record { value = "user_key"; disabled = false }
    ∷ record { value = "team_key"; disabled = true }
    ∷ record { value = "sa_key"; disabled = false }
    ∷ []

over_disabled : changed_to segments "user_key" 0 arrow_right ≡ some "sa_key"
unfolding changed_to
over_disabled = refl

around : changed_to segments "user_key" 0 arrow_left ≡ some "sa_key"
unfolding changed_to
around = refl

abbrev closed : Dropdown
closed = record {
  options = [];
  searchable = true;
  disabled = false;
  is_open = false;
  search = "";
  highlight = pos 0;
}

abbrev models : List Choice
models = record { value = "m1"; label = "gpt-4o" } ∷ record { value = "m2"; label = "claude" } ∷ []

abbrev same : String → String
same s = s

abbrev loaded : List DropdownEvent
loaded = render_options models ∷ trigger_key ∷ type_search "c" ∷ arrow_down_key ∷ []

enters : (on_event same enter_key (on_events same loaded closed)).1 ≡ some "m2"
unfolding on_events ◌-ℤ◌ includes ◌+ℤ◌
enters = refl

-- The options come after an arrow key on the empty list: the highlight stays at -1, and Enter does nothing.
abbrev late : List DropdownEvent
late = trigger_key ∷ arrow_down_key ∷ render_options models ∷ []

enters_nothing :
    (clamped_highlight same (on_events same late closed) ≡ negsuc 0)
    × ((on_event same enter_key (on_events same late closed)).1 ≡ none)
unfolding on_events ◌-ℤ◌ includes ◌+ℤ◌
enters_nothing = (refl, refl)

on_events-enter_example : EnterOutcome same (on_events same loaded closed)
on_events-enter_example = on_events-enter same loaded closed (omega arith)
