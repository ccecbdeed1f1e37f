-- ===== src/LiveTail.antt =====
-- ui/src/pages/usage/useLiveTail.ts: the rows that the live tail of the request log shows and
-- buffers. The hook is a machine: its state is what the component keeps (the store of `useState`,
-- the cursor and the flag of the refs, the highlighted ids), and its steps are the start of a poll,
-- its answer, a flush, the end of a highlight and a change of the switches. A row has the two fields
-- that the hook reads.
pub mod Bounds
pub mod Steps
mod Tests
use wai_ai.Common.{
  ℕ, String, Bool, true, false, not, ◌&&◌, ◌||◌, Option, none, some, List, [], ◌∷◌, ◌++◌, map, take,
  any, filter, head?, or_default, member, if◌then◌else◌, ◌==◌,
}
use wai_ai.Common.Text.{truthy, present}

-- `LIVE_TAIL_MAX_ROWS`
abbrev pub max_rows : ℕ
max_rows = 2000

pub record Row : Type 0 where
  pub id : String
  pub created_at : String

-- `.slice(0, LIVE_TAIL_MAX_ROWS)`
unfoldable pub capped : List Row → List Row
capped xs = take max_rows xs

pub record AfterCursor : Type 0 where
  pub after : String
  pub after_id : String

-- `EPOCH_CURSOR`
abbrev pub epoch_cursor : AfterCursor
epoch_cursor = record { after = "1970-01-01T00:00:00+00:00"; after_id = "" }

-- What a render passes to the hook. `reset_key` names the filters.
pub record Options : Type 0 where
  pub enabled : Bool
  pub paused : Bool
  pub open_row_id : Option String
  pub reset_key : String
  pub newest_loaded : Option Row

pub record Store : Type 0 where
  pub key : String
  pub rows : List Row
  pub pending : List Row

-- `cursorRef.current`, when it is not null.
pub record CursorRef : Type 0 where
  pub key : String
  pub cursor : AfterCursor

pub record Tail : Type 0 where
  pub store : Store
  pub cursor : Option CursorRef
  pub in_flight : Bool
  pub highlighted : List String
  pub error : Option String

-- A page of the answer to a poll: the rows and the newest cursor fields, which may be missing.
pub record LogsPage : Type 0 where
  pub rows : List Row
  pub latest_created_at : Option String
  pub latest_id : Option String

pub data Answer : Type 0 where
  page : LogsPage → Answer
  failed : String → Answer

-- `current`: rows of other filters are discarded.
unfoldable pub current : Options → Store → Store
current o s =
    if s.key == o.reset_key then s else record { key = o.reset_key; rows = []; pending = [] }

-- `paused`
unfoldable pub is_paused : Options → Store → Bool
is_paused o s =
    o.paused || elim o.open_row_id [ none ↦ false | some i ↦ any (λ r. r.id == i) s.rows ]

-- `current.pending[0] ?? current.rows[0] ?? newestPaged`
unfoldable pub newest_known : Options → Store → Option Row
newest_known o s = elim (head? s.pending) [
  | some r ↦ some r
  | none ↦ elim (head? s.rows) [ some r ↦ some r | none ↦ o.newest_loaded ]
]

-- A render: the reset of the store, and the effect that forgets the cursor of a tail turned off.
unfoldable pub render : Options → Tail → Tail
render o t = record t { store = current o t.store; cursor = if o.enabled then t.cursor else none }

-- `highlight`
unfoldable pub highlight : List String → Tail → Tail
highlight ids t = record t { highlighted = t.highlighted ++ ids }

-- The timer of `highlight`
unfoldable pub end_highlight : List String → Tail → Tail
end_highlight ids t = record t { highlighted = filter (λ i. not (member i ids)) t.highlighted }

-- `flush`
unfoldable pub flush : Tail → Tail
unfolding highlight
flush t = elim t.store.pending [
  | [] ↦ t
  | r ∷ rs ↦ highlight (map (λ p. p.id) (r ∷ rs)) (record t {
    store = record { key = t.store.key; rows = capped ((r ∷ rs) ++ t.store.rows); pending = [] };
  })
]

abbrev row_cursor : Option Row → AfterCursor
row_cursor none = epoch_cursor
row_cursor (some r) = record { after = r.created_at; after_id = r.id }

-- The cursor that a poll asks with: that of these filters, or a new one from the newest row.
unfoldable pub poll_cursor : Options → Tail → CursorRef
unfolding newest_known
poll_cursor o t =
    let fresh : CursorRef = record {
      key = o.reset_key;
      cursor = row_cursor (newest_known o t.store);
    } in
    elim t.cursor [ none ↦ fresh | some c ↦ if c.key == o.reset_key then c else fresh ]

-- The start of `tick`: nothing while another poll is under way.
unfoldable pub start_poll : Options → Tail → Tail
unfolding poll_cursor
start_poll o t =
    if t.in_flight then t else record t { cursor = some (poll_cursor o t); in_flight = true }

-- The cursor after a page whose first row is `r`.
abbrev pub next_cursor : String → LogsPage → Row → CursorRef
next_cursor key p r = record {
  key = key;
  cursor = record {
    after = or_default (present p.latest_created_at) r.created_at;
    after_id = or_default (present p.latest_id) r.id;
  };
}

-- The two updates of the store in `tick`, which leave the store of other filters alone.
unfoldable pub buffer_rows : String → List Row → Store → Store
buffer_rows key fresh s =
    if s.key == key then record s { pending = capped (fresh ++ s.pending) } else s

unfoldable pub show_rows : String → List Row → Store → Store
show_rows key fresh s =
    if s.key == key
    then record s { rows = capped (fresh ++ s.pending ++ s.rows); pending = [] }
    else s

-- The fresh rows of a poll of the filters `key`, of which `r` is the first.
unfoldable pub accept : Options → String → LogsPage → Row → List Row → Tail → Tail
unfolding highlight buffer_rows show_rows
accept o key p r rs t =
    let moved = record t { cursor = some (next_cursor key p r) } in
    if is_paused o t.store
    then record moved { store = buffer_rows key (r ∷ rs) t.store }
    else highlight (map (λ x. x.id) ((r ∷ rs) ++ t.store.pending))
        (record moved { store = show_rows key (r ∷ rs) t.store })

-- The rows of an answer, on a tail that still has the filters of the poll.
unfoldable pub take_rows : Options → String → LogsPage → Tail → Tail
take_rows o key p t = elim p.rows [
  | [] ↦ if is_paused o t.store then t else flush t
  | r ∷ rs ↦ accept o key p r rs t
]

-- The rest of `tick`, when the poll of the filters `key` answers: an answer to a cancelled poll, or
-- to other filters, is dropped. The flag is cleared on every path.
unfoldable pub answer_poll : Options → Bool → String → Answer → Tail → Tail
answer_poll o cancelled key (failed why) t = record t {
  in_flight = false;
  error = if cancelled then t.error else some why;
}
answer_poll o cancelled key (page p) t =
    if cancelled || not (o.reset_key == key)
    then record t { in_flight = false }
    else record (take_rows o key p (record t { error = none })) { in_flight = false }

-- What happens to the tail, in the order in which it happens; each event has the options of the
-- last render.
pub data Event : Type 0 where
  rendered : Options → Event
  started : Options → Event
  answered : Options → Bool → String → Answer → Event
  flushed : Event
  highlight_ended : List String → Event

unfoldable pub step : Event → Tail → Tail
step (rendered o) t = render o t
step (started o) t = start_poll o t
step (answered o cancelled key a) t = answer_poll o cancelled key a t
step flushed t = flush t
step (highlight_ended ids) t = end_highlight ids t

unfoldable pub run : List Event → Tail → Tail
run [] t = t
run (e ∷ es) t = run es (step e t)

-- The state at the first render.
unfoldable pub initial : String → Tail
initial reset_key = record {
  store = record { key = reset_key; rows = []; pending = [] };
  cursor = none;
  in_flight = false;
  highlighted = [];
  error = none;
}
