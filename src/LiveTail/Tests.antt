-- ===== src/LiveTail/Tests.antt =====
-- The theorems on the live tail at concrete states.
use wai_ai.Common.{◌≡◌, refl, true, false, none, some, List, [], ◌∷◌, String}
use wai_ai.LiveTail.{
  Row, Tail, Options, LogsPage, Answer, page, failed, Event, rendered, started, answered, flushed,
  is_paused, poll_cursor, next_cursor, answer_poll, step, run, initial,
}
use wai_ai.LiveTail.Bounds.{IsBounded, run-IsBounded}

abbrev row : String → Row
row i = record { id = i; created_at = "2026-01-01" }

abbrev live : Options
live = record {
  enabled = true;
  paused = false;
  open_row_id = none;
  reset_key = "all";
  newest_loaded = some (row "r0");
}

abbrev reading : Options
reading = record live { open_row_id = some "r1" }

abbrev news : LogsPage
news = record { rows = row "r3" ∷ []; latest_created_at = some "2026-01-02"; latest_id = none }

abbrev shown : Tail
shown = record {
  store = record { key = "all"; rows = row "r1" ∷ []; pending = row "r2" ∷ [] };
  cursor = none;
  in_flight = true;
  highlighted = [];
  error = none;
}

abbrev events : List Event
events =
    rendered live
    ∷ started live
    ∷ answered live false "all" (page news)
    ∷ started live
    ∷ flushed
    ∷ []

after_events : (run events (initial "all")).store.rows ≡ row "r3" ∷ []
unfolding run step initial wai_ai.LiveTail.render wai_ai.LiveTail.current wai_ai.LiveTail.start_poll
    wai_ai.LiveTail.answer_poll wai_ai.LiveTail.take_rows wai_ai.LiveTail.accept
    wai_ai.LiveTail.flush is_paused wai_ai.LiveTail.capped
after_events = refl

run-IsBounded_example : IsBounded (run events (initial "all")).store
run-IsBounded_example = run-IsBounded events "all"
