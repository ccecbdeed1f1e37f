-- ===== src/Pager.antt =====
-- ui/src/components/members/listState.ts: the cursor pager of the list pages, and the search in the
-- loaded rows. The pager is the two states of the hook; the callbacks of the table are functions on
-- it.
pub mod History
pub mod Sorting
mod Tests
use wai_ai.Common.{
  ℕ, String, Bool, true, false, not, ◌||◌, Option, none, some, List, [], ◌∷◌, ◌++◌, or_default,
  length, ltb, any, if◌then◌else◌, ◌==◌,
}
use wai_ai.Common.Text.{truthy, present, needle, includes}

pub record Pager : Type 0 where
  pub cursor : Option String
  pub prev_cursors : List String

-- The fields of a page that the pager reads.
pub record Page : Type 0 where
  pub has_more : Option Bool
  pub next_cursor : Option String

pub record PaginationState : Type 0 where
  pub cursor : Option String
  pub has_more : Bool
  pub has_previous : Bool

abbrev pub start : Pager
start = record { cursor = none; prev_cursors = [] }

-- The fields of `pagination(page)`
unfoldable pub pagination : Pager → Option Page → PaginationState
pagination s page = record {
  cursor = s.cursor;
  has_more = elim page [ none ↦ false | some p ↦ or_default p.has_more false ];
  has_previous = ltb 0 (length s.prev_cursors);
}

unfoldable pub is_first_page : Pager → Bool
is_first_page s = not (ltb 0 (length s.prev_cursors))

-- `page?.next_cursor`, if truthy
unfoldable pub page_cursor : Option Page → Option String
page_cursor none = none
page_cursor (some p) = present p.next_cursor

-- `onNext`
unfoldable pub on_next : Option Page → Pager → Pager
on_next page s = elim (page_cursor page) [
  | none ↦ s
  | some c ↦ record {
    cursor = some c;
    prev_cursors = s.prev_cursors ++ or_default s.cursor "" ∷ [];
  }
]

-- `xs[xs.length - 1]`
unfoldable pub last? : List String → Option String
last? [] = none
last? (x ∷ []) = some x
last? (x ∷ y ∷ ys) = last? (y ∷ ys)

-- `xs.slice(0, -1)`
unfoldable pub drop_last : List String → List String
drop_last [] = []
drop_last (x ∷ []) = []
drop_last (x ∷ y ∷ ys) = x ∷ drop_last (y ∷ ys)

-- `onPrevious`
unfoldable pub on_previous : Pager → Pager
unfolding last? drop_last
on_previous s = record {
  cursor = present (last? s.prev_cursors);
  prev_cursors = drop_last s.prev_cursors;
}

-- `matchesQuery`; `lower` is the engine's `toLowerCase`.
unfoldable pub matches_query : (String → String) → String → List (Option String) → Bool
matches_query lower query fields =
    not (truthy (needle lower query))
    || any (λ f. elim f [ none ↦ false | some s ↦ includes (lower s) (needle lower query) ]) fields
