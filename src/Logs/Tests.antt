-- ===== src/Logs/Tests.antt =====
-- The request log with its parameters kept as a function.
use wai_ai.Common.{
  ◌≡◌, refl, subst, String, Option, none, some, List, [], ◌∷◌, or_default, if◌then◌else◌, ◌==◌,
}
use wai_ai.Common.Int.{ℤ, pos}
use wai_ai.Common.Text.{append}
use wai_ai.Controls.Segmented.{nth}
use wai_ai.LiveTail.{Row}
use wai_ai.Logs.{
  UrlParams, UrlLaws, LogsDrilldown, error, link_params, request_logs_url, read_filters, Logs,
  request_of, shown_rows,
}
use wai_ai.Logs.Page.{LogsEvent, type_model, choose_status, on_table_key_down, open_logs}
use wai_ai.Logs.Links.{read_filters-link_params}
use wai_ai.Logs.Rows.{plain, press, press-reaches}
use wai_ai.TimeRange.RoundTrip.{IsReadable}
use wai_ai.TimeRange.{TimeRangeValue, preset, one_week}

abbrev as_function : UrlParams (String → Option String)
as_function = record {
  empty = λ k. none;
  get = λ k p. p k;
  set = λ j v p k. if j == k then some v else p k;
  delete = λ j p k. if j == k then none else p k;
  print = λ p. append "status=" (or_default (p "status") "");
}

abbrev as_function_laws : UrlLaws as_function
as_function_laws = record {
  get-empty = λ k. refl;
  get-set = λ k j v p. refl;
  get-delete = λ k j p. refl;
}

abbrev any_date : String → Option ℤ
any_date s = some (pos 0)

abbrev errors_of_week : LogsDrilldown
errors_of_week = record {
  status = some error;
  model = some "gpt";
  key_id = none;
  range = some (preset one_week);
  request = none;
}

url : request_logs_url as_function errors_of_week ≡ "/usage/logs?status=error"
unfolding request_logs_url append
url = refl

readable : (r : TimeRangeValue) → errors_of_week.range ≡ some r → IsReadable any_date r
readable r e = subst (IsReadable any_date) (same e) tt
  where
    same : some (preset one_week) ≡ some r → preset one_week ≡ r
    same q = cc

read_filters-link_params_example :
    read_filters as_function any_date (link_params as_function errors_of_week) ≡ record {
      status = some error;
      model = "gpt";
      key_id = "";
      range = some (preset one_week);
      request = "";
    }
read_filters-link_params_example =
    read_filters-link_params as_function as_function_laws any_date errors_of_week readable

abbrev row : String → Row
row id = record { id = id; created_at = "" }

abbrev rows : List Row
rows = row "a" ∷ row "b" ∷ row "c" ∷ []

abbrev opened : Logs (String → Option String)
opened = open_logs as_function any_date as_function.empty

second : nth 1 rows ≡ some (row "b")
unfolding nth
second = refl

press-reaches_example :
    let there =
      press as_function as_function_laws any_date 1 "j" rows
        (press as_function as_function_laws any_date 3 "k" rows opened) in
    (there.focused ≡ some "b")
    × (request_of as_function
          (on_table_key_down as_function any_date rows (plain "Enter") there).params
        ≡ "b")
    × ((on_table_key_down as_function any_date (row "d" ∷ rows) (plain "j") there).focused
        ≡ some "b")
press-reaches_example =
    press-reaches as_function as_function_laws any_date rows 1 (row "b") (row "d") opened second
      refl

both_once : shown_rows (row "b" ∷ row "a" ∷ []) (row "a" ∷ []) ≡ row "b" ∷ row "a" ∷ []
unfolding shown_rows
both_once = refl

abbrev typed : List (List Row × LogsEvent (String → Option String))
typed = (rows, choose_status (some error)) ∷ (rows, type_model "gpt ") ∷ []
