-- ===== src/LiveTail/Bounds.antt =====
-- The live tail keeps at most `max_rows` rows on screen and as many in its buffer.
use wai_ai.Common.{
  Bool, none, ◌≤◌, String, ◌≡◌, refl, List, [], ◌∷◌, ◌++◌, arith, length, length-take,
}
use wai_ai.LiveTail.{
  Row, Store, Tail, Options, LogsPage, Answer, page, failed, Event, rendered, started, answered,
  flushed, highlight_ended, max_rows, capped, current, flush, render, accept, take_rows,
  answer_poll, start_poll, end_highlight, step, run, initial,
}

pub record IsBounded (s : Store) : Type 0 where
  pub shown : length s.rows ≤ 2000
  pub buffered : length s.pending ≤ 2000

length-capped : (xs : List Row) → length (capped xs) ≤ 2000
unfolding capped
length-capped xs = omega (arith, length-take max_rows xs)

current-IsBounded : (o : Options) (s : Store) → IsBounded s → IsBounded (current o s)
unfolding current
current-IsBounded o s b = ground arith

flush-IsBounded : (t : Tail) → IsBounded t.store → IsBounded (flush t).store
unfolding flush
flush-IsBounded t b = split t.store.pending refl
  where
    split : (rows : List Row) → t.store.pending ≡ rows → IsBounded (flush t).store
    split [] e = rw (e, flush) b
    split (r ∷ rs) e =
        rw (e, flush)
          (record { shown = length-capped ((r ∷ rs) ++ t.store.rows); buffered = omega arith })

accept-IsBounded :
    (o : Options) (key : String) (p : LogsPage) (r : Row) (rs : List Row) (t : Tail)
    → IsBounded t.store
    → IsBounded (accept o key p r rs t).store
unfolding accept
accept-IsBounded o key p r rs t b = ground (
  arith,
  length-capped ((r ∷ rs) ++ t.store.pending),
  length-capped ((r ∷ rs) ++ t.store.pending ++ t.store.rows),
)

take_rows-IsBounded :
    (o : Options) (key : String) (p : LogsPage) (t : Tail)
    → IsBounded t.store
    → IsBounded (take_rows o key p t).store
unfolding take_rows
take_rows-IsBounded o key p t b = split p.rows refl
  where
    split : (rows : List Row) → p.rows ≡ rows → IsBounded (take_rows o key p t).store
    split [] e = rw (e, take_rows) (ground (arith, flush-IsBounded t b))
    split (r ∷ rs) e = rw (e, take_rows) (accept-IsBounded o key p r rs t b)

answer_poll-IsBounded :
    (o : Options) (cancelled : Bool) (key : String) (a : Answer) (t : Tail)
    → IsBounded t.store
    → IsBounded (answer_poll o cancelled key a t).store
unfolding answer_poll
answer_poll-IsBounded o cancelled key (failed why) t b = b
answer_poll-IsBounded o cancelled key (page p) t b =
    ground (arith, take_rows-IsBounded o key p (record t { error = none }) b)

start_poll-store : (o : Options) (t : Tail) → (start_poll o t).store ≡ t.store
unfolding start_poll
start_poll-store o t = ground arith

pub step-IsBounded : (e : Event) (t : Tail) → IsBounded t.store → IsBounded (step e t).store
unfolding step
step-IsBounded (rendered o) t b = unfold render in current-IsBounded o t.store b
step-IsBounded (started o) t b = rw (start_poll-store o t) b
step-IsBounded (answered o c key a) t b = answer_poll-IsBounded o c key a t b
step-IsBounded flushed t b = flush-IsBounded t b
step-IsBounded (highlight_ended ids) t b = unfold end_highlight in b

run_keeps : (es : List Event) (t : Tail) → IsBounded t.store → IsBounded (run es t).store
unfolding run
run_keeps [] t b = b
run_keeps (e ∷ es) t b = run_keeps es (step e t) (step-IsBounded e t b)

-- Whatever happens, at most 2000 rows are shown and at most 2000 are buffered.
pub run-IsBounded :
    (es : List Event) (reset_key : String) → IsBounded (run es (initial reset_key)).store
run-IsBounded es reset_key =
    run_keeps es (initial reset_key)
      (unfold initial in record { shown = omega arith; buffered = omega arith })
