-- ===== src/Pager/Tests.antt =====
-- The pager on three pages.
use wai_ai.Common.{◌≡◌, ◌≢◌, ◌↔◌, refl, Bool, true, false, none, some, List, [], ◌∷◌}
use wai_ai.Pager.{Page, start, on_next, page_cursor, on_previous, matches_query}
use wai_ai.Pager.History.{Move, next, previous, run, on_previous-on_next}

abbrev page_1 : Page
page_1 = record { has_more = some true; next_cursor = some "p2" }

abbrev page_2 : Page
page_2 = record { has_more = some true; next_cursor = some "p3" }

abbrev moves : List Move
moves = next (some page_1) ∷ next none ∷ next (some page_2) ∷ previous ∷ []

after_moves : run moves start ≡ record { cursor = some "p2"; prev_cursors = "" ∷ [] }
unfolding run on_next on_previous page_cursor
after_moves = refl

on_previous-on_next_example :
    on_previous
      (on_next (some (record { has_more = some true; next_cursor = some "p3" })) (run moves start))
    ≡ run moves start
on_previous-on_next_example = on_previous-on_next moves (some true) "p3" refl

found : matches_query (λ s. s) " li " (some "alice" ∷ none ∷ []) ≡ true
unfolding matches_query wai_ai.Common.Text.trim wai_ai.Common.Text.includes
found = refl
