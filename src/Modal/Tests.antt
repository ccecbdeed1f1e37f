-- ===== src/Modal/Tests.antt =====
-- A sheet with a dialog over it.
use wai_ai.Common.{◌≡◌, refl, true, false, some, List, [], ◌∷◌}
use wai_ai.Modal.{Modals, EscapeKey, open_modal, close_modal, press_escape, tab_target}
use wai_ai.Modal.Escape.{ModalEvent, opens, closes_modal, run, no_modals}
use wai_ai.Modal.Scroll.{done, visit, perform, perform_overflow}

abbrev events : List ModalEvent
events = opens ∷ opens ∷ opens ∷ closes_modal 1 ∷ []

abbrev escape : EscapeKey
escape = record { default_prevented = false; in_popper = false }

top_only : press_escape (λ t. true) escape (run events (no_modals "")) ≡ 2 ∷ []
unfolding press_escape run wai_ai.Modal.open_modal wai_ai.Modal.close_modal
top_only = refl

wraps : tab_target 3 (some 2) false ≡ some 0
unfolding tab_target
wraps = refl

perform_overflow_example :
    ((perform (visit (visit done done) done) (no_modals "auto")).overflow ≡ "auto")
    × ((close_modal 1 (close_modal 0 (open_modal (open_modal (no_modals "auto"))))).overflow
        ≡ "hidden")
perform_overflow_example = perform_overflow (visit (visit done done) done) (no_modals "auto")
