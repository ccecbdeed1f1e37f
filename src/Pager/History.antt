-- ===== src/Pager/History.antt =====
-- Going forward and back in a list of pages.
use wai_ai.Common.{
  String, ◌≡◌, ◌≢◌, ◌↔◌, refl, ap, Bool, true, Option, none, some, List, [], ◌∷◌, ◌++◌, arith,
  or_default, All, All-append, not, ltb, length, Option-cases, inl, inr,
}
use wai_ai.Common.Text.{truthy, present}
use wai_ai.Pager.{
  Pager, Page, start, on_next, page_cursor, on_previous, last?, drop_last, pagination,
  is_first_page,
}

last?-append : (xs : List String) (x : String) → last? (xs ++ x ∷ []) ≡ some x
unfolding last?
last?-append [] x = refl
last?-append (y ∷ []) x = refl
last?-append (y ∷ z ∷ zs) x = last?-append (z ∷ zs) x

drop_last-append : (xs : List String) (x : String) → drop_last (xs ++ x ∷ []) ≡ xs
unfolding drop_last
drop_last-append [] x = refl
drop_last-append (y ∷ []) x = refl
drop_last-append (y ∷ z ∷ zs) x = ap (◌∷◌ y) (drop_last-append (z ∷ zs) x)

-- The cursors of the pages before this one and of this one: the first page has none, which the
-- list writes as the empty text, and every later page has a cursor.
abbrev pub Trail : List String → Option String → Type 0
Trail [] o = o ≡ none
Trail (x ∷ xs) o =
    (x ≡ "") × All (λ s. truthy s ≡ true) xs × ((c : String) × (o ≡ some c) × (truthy c ≡ true))

abbrev pub IsTrail : Pager → Type 0
IsTrail s = Trail s.prev_cursors s.cursor

-- The pages that were visited, a step forward or back at a time.
pub data Move : Type 0 where
  next : Option Page → Move
  previous : Move

abbrev pub page_move : Move → Pager → Pager
page_move (next page) s = on_next page s
page_move previous s = on_previous s

unfoldable pub run : List Move → Pager → Pager
run [] s = s
run (m ∷ ms) s = run ms (page_move m s)

present-truthy : (o : Option String) (c : String) → present o ≡ some c → truthy c ≡ true
present-truthy none c e = absurd (ground arith)
present-truthy (some s) c e = ground arith

page_cursor-truthy : (page : Option Page) (c : String) → page_cursor page ≡ some c → truthy c ≡ true
unfolding page_cursor
page_cursor-truthy none c e = absurd (ground arith)
page_cursor-truthy (some p) c e = present-truthy p.next_cursor c e

present-truthy' : (c : String) → truthy c ≡ true → present (some c) ≡ some c
present-truthy' c h = rw h refl

Trail-append :
    (xs : List String) (o : Option String) (c : String)
    → Trail xs o
    → truthy c ≡ true
    → Trail (xs ++ or_default o "" ∷ []) (some c)
Trail-append [] o c t h = rw t (refl, tt, (c, refl, h))
Trail-append (x ∷ xs) o c (first, later, (d, e, k)) h =
    rw e (first, All-append (λ s. truthy s ≡ true) xs (d ∷ []) later (k, tt), (c, refl, h))

drop_last-truthy :
    (xs : List String) → All (λ s. truthy s ≡ true) xs → All (λ s. truthy s ≡ true) (drop_last xs)
unfolding drop_last
drop_last-truthy [] h = tt
drop_last-truthy (x ∷ []) h = tt
drop_last-truthy (x ∷ y ∷ ys) (k, h) = (k, drop_last-truthy (y ∷ ys) h)

last?-truthy :
    (x : String) (xs : List String)
    → All (λ s. truthy s ≡ true) (x ∷ xs)
    → (l : String) × (last? (x ∷ xs) ≡ some l) × (truthy l ≡ true)
unfolding last?
last?-truthy x [] h = (x, refl, h.0)
last?-truthy x (y ∷ ys) h = last?-truthy y ys h.1

Trail-drop_last :
    (xs : List String) (o : Option String) → Trail xs o → Trail (drop_last xs) (present (last? xs))
unfolding drop_last last?
Trail-drop_last [] o t = refl
Trail-drop_last (x ∷ []) o (first, later, rest) = rw first refl
Trail-drop_last (x ∷ y ∷ ys) o (first, later, rest) =
    let (l, e, h) = last?-truthy y ys later in
    (first, drop_last-truthy (y ∷ ys) later, (l, rw e (present-truthy' l h), h))

on_next-some :
    (page : Option Page) (s : Pager) (c : String)
    → page_cursor page ≡ some c
    → on_next page s
      ≡ record { cursor = some c; prev_cursors = s.prev_cursors ++ or_default s.cursor "" ∷ [] }
unfolding on_next
on_next-some page s c e = rw (e, on_next) refl

on_next-none : (page : Option Page) (s : Pager) → page_cursor page ≡ none → on_next page s ≡ s
unfolding on_next
on_next-none page s e = rw (e, on_next) refl

page_move-IsTrail : (m : Move) (s : Pager) → IsTrail s → IsTrail (page_move m s)
page_move-IsTrail (next page) s t = elim (Option-cases (page_cursor page)) [
  | inl e ↦ rw (on_next-none page s e) t
  | inr (c, e) ↦
      rw (on_next-some page s c e)
        (Trail-append s.prev_cursors s.cursor c t (page_cursor-truthy page c e))
]
page_move-IsTrail previous s t = unfold on_previous in Trail-drop_last s.prev_cursors s.cursor t

run_keeps : (ms : List Move) (s : Pager) → IsTrail s → IsTrail (run ms s)
unfolding run
run_keeps [] s t = t
run_keeps (m ∷ ms) s t = run_keeps ms (page_move m s) (page_move-IsTrail m s t)

first_iff :
    (xs : List String) (o : Option String)
    → Trail xs o
    → ((not (ltb 0 (length xs)) ≡ true) ↔ (o ≡ none)) × ((ltb 0 (length xs) ≡ true) ↔ (o ≢ none))
first_iff [] o t = ground (arith, t)
first_iff (x ∷ xs) o (first, later, (c, e, h)) = ground arith

-- The cursor that the way back restores.
present-or_default :
    (xs : List String) (o : Option String) → Trail xs o → present (some (or_default o "")) ≡ o
present-or_default [] o t = rw t refl
present-or_default (x ∷ xs) o (first, later, (c, e, h)) = rw e (present-truthy' c h)

-- After any moves, the pager is on the first page exactly when it has no cursor, and the table's
-- button for the page before is offered exactly on the other pages.
pub is_first_page_iff :
    (ms : List Move) (page : Option Page)
    → ((is_first_page (run ms start) ≡ true) ↔ ((run ms start).cursor ≡ none))
      × (((pagination (run ms start) page).has_previous ≡ true) ↔ ((run ms start).cursor ≢ none))
unfolding is_first_page pagination
is_first_page_iff ms page =
    let s = run ms start in first_iff s.prev_cursors s.cursor (run_keeps ms start refl)

-- After any moves, going forward to a page that has a cursor and then back restores the pager: the
-- same page, with the same pages before it.
pub on_previous-on_next :
    (ms : List Move) (has_more : Option Bool) (c : String)
    → truthy c ≡ true
    → on_previous
        (on_next (some (record { has_more = has_more; next_cursor = some c })) (run ms start))
      ≡ run ms start
unfolding on_previous
on_previous-on_next ms has_more c h =
    let s = run ms start in
    let page : Option Page = some (record { has_more = has_more; next_cursor = some c }) in
    rw
      (
        on_next-some page s c (unfold page_cursor in present-truthy' c h),
        last?-append s.prev_cursors (or_default s.cursor ""),
        drop_last-append s.prev_cursors (or_default s.cursor ""),
        present-or_default s.prev_cursors s.cursor (run_keeps ms start refl),
      )
      refl
