-- ===== src/LiveTail/Steps.antt =====
-- What the answer to a poll changes.
use wai_ai.Common.{
  ◌≤◌, String, ◌≡◌, refl, Bool, true, false, none, some, List, [], ◌∷◌, ◌++◌, arith, length,
  take_all, eq_iff, eq_refl,
}
use wai_ai.LiveTail.{
  Row, Tail, Options, LogsPage, Answer, page, failed, max_rows, capped, is_paused, next_cursor,
  poll_cursor, accept, take_rows, answer_poll,
}

take_rows_paused :
    (o : Options) (key : String) (rows : List Row) (p : LogsPage) (t : Tail)
    → p.rows ≡ rows
    → is_paused o t.store ≡ true
    → (take_rows o key p t).store.rows ≡ t.store.rows
unfolding take_rows
take_rows_paused o key [] p t e h = rw (e, take_rows) (ground arith)
take_rows_paused o key (r ∷ rs) p t e h = rw (e, take_rows) (unfold accept in ground arith)

-- While the tail is paused, no answer changes the rows that are shown.
pub answer_poll_paused :
    (o : Options) (cancelled : Bool) (key : String) (a : Answer) (t : Tail)
    → is_paused o t.store ≡ true
    → (answer_poll o cancelled key a t).store.rows ≡ t.store.rows
unfolding answer_poll
answer_poll_paused o cancelled key (failed why) t h = refl
answer_poll_paused o cancelled key (page p) t h =
    ground (arith, take_rows_paused o key p.rows p (record t { error = none }) refl h)

capped_short : (xs : List Row) → length xs ≤ 2000 → capped xs ≡ xs
unfolding capped
capped_short xs h = take_all max_rows xs h

accept-shows :
    (o : Options) (p : LogsPage) (r : Row) (rs : List Row) (t : Tail)
    → is_paused o t.store ≡ false
    → t.store.key ≡ o.reset_key
    → length ((r ∷ rs) ++ t.store.pending ++ t.store.rows) ≤ 2000
    → ((accept o o.reset_key p r rs t).store.rows ≡ (r ∷ rs) ++ t.store.pending ++ t.store.rows)
      × ((accept o o.reset_key p r rs t).store.pending ≡ [])
      × ((accept o o.reset_key p r rs t).cursor ≡ some (next_cursor o.reset_key p r))
unfolding accept
accept-shows o p r rs t live same fits = ground (
  arith,
  eq_iff t.store.key o.reset_key,
  capped_short ((r ∷ rs) ++ t.store.pending ++ t.store.rows) fits,
)

take_rows-cons :
    (o : Options) (key : String) (p : LogsPage) (r : Row) (rs : List Row) (t : Tail)
    → p.rows ≡ r ∷ rs
    → take_rows o key p t ≡ accept o key p r rs t
unfolding take_rows accept
take_rows-cons o key p r rs t e = rw (e, take_rows)

-- An answer with rows, to the filters in force and while not paused, puts its rows above the
-- buffered ones and those above the shown ones, none of them lost as long as they fit; it empties
-- the buffer, and the next poll asks for what is newer than the answer.
pub answer_poll-shows :
    (o : Options) (p : LogsPage) (r : Row) (rs : List Row) (t : Tail)
    → p.rows ≡ r ∷ rs
    → is_paused o t.store ≡ false
    → t.store.key ≡ o.reset_key
    → length ((r ∷ rs) ++ t.store.pending ++ t.store.rows) ≤ 2000
    → ((answer_poll o false o.reset_key (page p) t).store.rows
        ≡ (r ∷ rs) ++ t.store.pending ++ t.store.rows)
      × ((answer_poll o false o.reset_key (page p) t).store.pending ≡ [])
      × (poll_cursor o (answer_poll o false o.reset_key (page p) t) ≡ next_cursor o.reset_key p r)
unfolding answer_poll poll_cursor
answer_poll-shows o p r rs t e live same fits = ground (
  arith,
  eq_refl o.reset_key,
  take_rows-cons o o.reset_key p r rs (record t { error = none }) e,
  accept-shows o p r rs (record t { error = none }) live same fits,
)
