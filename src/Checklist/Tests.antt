-- ===== src/Checklist/Tests.antt =====
-- A server chosen and given up again.
use wai_ai.Common.Text.{includes, trim}
use wai_ai.Common.{◌≡◌, ◌↔◌, refl, String, false, none, some, List, [], ◌∷◌, Listed}
use wai_ai.Checklist.{
  Props, ChecklistEvent, toggle, select_all, type_query, is_dirty, selected, on_events,
}
use wai_ai.Checklist.Dirty.{opened, is_dirty_iff}

abbrev props : Props
props = record {
  servers =
      record { id = "s1"; name = "Search"; alias = none }
      ∷ record { id = "s2"; name = "Files"; alias = some "fs" }
      ∷ [];
  saved = "s1" ∷ "gone" ∷ [];
}

abbrev same : String → String
same s = s

abbrev twice : List (Props × ChecklistEvent)
twice = (props, toggle "s2") ∷ (props, toggle "s2") ∷ []

not_dirty : is_dirty props.saved (on_events same twice opened) ≡ false
unfolding is_dirty on_events
not_dirty = refl

found :
    selected props.saved
      (on_events same ((props, type_query "fs") ∷ (props, select_all) ∷ []) opened)
    ≡ "s1" ∷ "gone" ∷ "s2" ∷ []
unfolding selected on_events trim includes
found = refl

is_dirty_iff_example : (is_dirty props.saved (on_events same twice opened) ≡ false) ↔ (
    (id : String)
    → Listed id (selected props.saved (on_events same twice opened)) ↔ Listed id props.saved)
is_dirty_iff_example = is_dirty_iff same twice props.saved
