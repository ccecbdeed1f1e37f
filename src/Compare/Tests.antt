-- ===== src/Compare/Tests.antt =====
-- Three columns, of which one is copied and one taken away, and a prompt for those that are left.
use wai_ai.Common.Text.{trim}
use wai_ai.Common.{ℕ, ◌≡◌, ◌↔◌, refl, true, false, none, some, List, [], ◌∷◌, ltb, arith}
use wai_ai.Common.Sort.{IsStrictOrder}
use wai_ai.Compare.{
  Props, Compare, CompareEvent, add_column, remove_column, duplicate_column, type_draft, run_all,
  initial, on_event, on_events, any_streaming,
}
use wai_ai.Compare.Best.{best_index, Wins, best_index_iff}
use wai_ai.Compare.Columns.{on_events-IsWhole}
use wai_ai.Compare.Columns.Ids.{IsWhole}
use wai_ai.Compare.Run.{AreSent, run_all-AreSent}

abbrev props : Props ℕ (Unit {0})
props = record {
  options =
      record { value = "gpt"; label = "gpt" } ∷ record { value = "claude"; label = "claude" } ∷ [];
  system_prompt = "";
  temperature = 1;
  max_tokens = 100;
  stream = true;
  api_key = "";
  response_format = none;
  synced = false;
  blocked_reason = none;
}

abbrev done : List (Props ℕ (Unit {0}) × CompareEvent ℕ)
done =
    (props, add_column "c")
    ∷ (props, duplicate_column "col-3-c" "d")
    ∷ (props, remove_column "col-1-a")
    ∷ (props, type_draft "hello")
    ∷ []

on_events-IsWhole_example : IsWhole (on_events done (initial props 0 "a" "b"))
on_events-IsWhole_example = on_events-IsWhole props 0 "a" "b" done

abbrev ready : Compare ℕ
ready = record (initial props 0 "a" "b") { draft = "hello" }

run_all-AreSent_example :
    AreSent props "hello" ready.columns (on_event props run_all ready).1
    × ((on_event props run_all ready).0.draft ≡ "")
unfolding any_streaming initial trim
run_all-AreSent_example =
    run_all-AreSent props ready refl refl refl (omega arith) (refl, (refl, tt)) (omega arith)

ltb-IsStrictOrder : IsStrictOrder ltb
ltb-IsStrictOrder = record { asym = λ a b h. ground arith; neg_trans = λ a b c h k. ground arith }

fastest : best_index ltb (some 300 ∷ none ∷ some 200 ∷ []) ≡ some 2
unfolding best_index
fastest = refl

tied : best_index ltb (some 200 ∷ some 200 ∷ []) ≡ none
unfolding best_index
tied = refl

best_index_iff_example :
    (best_index ltb (some 300 ∷ none ∷ some 200 ∷ []) ≡ some 2)
    ↔ Wins ltb 2 (some 300 ∷ none ∷ some 200 ∷ [])
best_index_iff_example = best_index_iff ltb ltb-IsStrictOrder (some 300 ∷ none ∷ some 200 ∷ []) 2
