-- ===== src/Logs.antt =====
-- ui/src/pages/usage/RequestLogsPage.tsx: the filters of the request log in the page's search parameters,
-- the field of the model, the rows with their keys, and what the page hands to the live tail; with the
-- deep links of ui/src/components/analytics/drilldown.ts. URLSearchParams is an interface. Markup, the
-- request for a page of rows and the suggestions of models are not modelled.

pub mod Page
pub mod Links
pub mod Rows
pub mod Shown
pub mod Typing
mod Tests
use wai_ai.Common.{
  ℕ, suc, ◌+◌, ◌-◌, min, ◌≡◌, String, Bool, true, false, not, ◌&&◌, ◌||◌, Option, none, some, List,
  [], ◌∷◌, ◌++◌, any, find, head?, take, length, leb, ltb, eqb, member, or_default, is_some,
  if◌then◌else◌, ◌==◌,
}
use wai_ai.Common.Decimal.{print_nat}
use wai_ai.Common.Int.{ℤ}
use wai_ai.Common.Text.{append, truthy, present, trim}
use wai_ai.Controls.Segmented.{nth}
use wai_ai.LiveTail.{Row, Options, max_rows}
use wai_ai.TimeRange.{TimeRangeValue, preset, custom, one_day, time_range_key, parse_time_range}

-- `URLSearchParams`: its calls, of which `get` gives none for null.
pub record UrlParams (Params : Type 0) : Type 0 where
  pub empty : Params
  pub get : String → Params → Option String
  pub set : String → String → Params → Params
  pub delete : String → Params → Params
  pub print : Params → String

-- What is read back after them, as documented.
pub record UrlLaws {Params : Type 0} (u : UrlParams Params) : Type 0 where
  pub get-empty : (k : String) → u.get k u.empty ≡ none
  pub get-set :
      (k j v : String) (p : Params) → u.get k (u.set j v p) ≡ (if j == k then some v else u.get k p)
  pub get-delete :
      (k j : String) (p : Params) → u.get k (u.delete j p) ≡ (if j == k then none else u.get k p)

-- `RequestLogStatusFilter`
pub data StatusFilter : Type 0 where
  success error : StatusFilter

abbrev pub status_name : StatusFilter → String
status_name success = "success"
status_name error = "error"

abbrev pub optional_name : Option StatusFilter → Option String
optional_name none = none
optional_name (some s) = some (status_name s)

-- `parseStatus`
unfoldable pub parse_status : Option String → Option StatusFilter
parse_status none = none
parse_status (some raw) =
    if raw == "success" then some success else if raw == "error" then some error else none

-- `LogsDrilldown`
pub record LogsDrilldown : Type 0 where
  pub status : Option StatusFilter
  pub model : Option String
  pub key_id : Option String
  pub range : Option TimeRangeValue
  pub request : Option String

abbrev pub request_logs_path : String
request_logs_path = "/usage/logs"

-- What the page reads from its parameters.
pub record Filters : Type 0 where
  pub status : Option StatusFilter
  pub model : String
  pub key_id : String
  pub range : Option TimeRangeValue
  pub request : String

-- `dedupeById`, with the ids in `seen`
unfoldable pub dedupe_from : List String → List Row → List Row
dedupe_from seen [] = []
dedupe_from seen (r ∷ rs) =
    if member r.id seen then dedupe_from seen rs else r ∷ dedupe_from (r.id ∷ seen) rs

-- `allRows`, `truncated` and `rows`
unfoldable pub shown_rows : List Row → List Row → List Row
unfolding dedupe_from
shown_rows tail_rows paged =
    let all_rows = dedupe_from [] (tail_rows ++ paged) in
    if ltb max_rows (length all_rows) then take max_rows all_rows else all_rows

-- The states of the page, its parameters, and the id of the row whose button has the focus.
pub record Logs (Params : Type 0) : Type 0 where
  pub params : Params
  pub model_draft : String
  pub synced_model : String
  pub refresh_key : ℕ
  pub live : Bool
  pub scrolled_away : Bool
  pub active_index : ℕ
  pub focused : Option String

module _ {Params : Type 0} (u : UrlParams Params) where
  -- `params.set(key, value)` if the value is truthy
  unfoldable pub set_some : String → Option String → Params → Params
  set_some key none p = p
  set_some key (some v) p = if truthy v then u.set key v p else p

  -- `if (range != null) params.set('range', serializeTimeRange(range))`
  abbrev pub set_range : Option TimeRangeValue → Params → Params
  set_range none p = p
  set_range (some r) p = u.set "range" (time_range_key r) p

  -- The parameters of `requestLogsUrl`
  unfoldable pub link_params : LogsDrilldown → Params
  unfolding set_some
  link_params d =
      let p1 = set_some "status" (optional_name d.status) u.empty in
      let p3 = set_some "key_id" d.key_id (set_some "model" d.model p1) in
      set_some "request" d.request (set_range d.range p3)

  -- `requestLogsUrl`
  unfoldable pub request_logs_url : LogsDrilldown → String
  unfolding link_params
  request_logs_url d =
      let qs = u.print (link_params d) in
      if truthy qs then append request_logs_path (append "?" qs) else request_logs_path

  -- `updateParams`
  unfoldable pub update_params : List (String × Option String) → Params → Params
  update_params [] p = p
  update_params ((k, none) ∷ changes) p = update_params changes (u.delete k p)
  update_params ((k, some v) ∷ changes) p =
      update_params changes (if v == "" then u.delete k p else u.set k v p)

  -- `searchParams.get('model') ?? ''`
  unfoldable pub model_of : Params → String
  model_of p = or_default (u.get "model" p) ""

  unfoldable pub request_of : Params → String
  request_of p = or_default (u.get "request" p) ""

  module _ (parse_date : String → Option ℤ) where
    unfoldable pub read_filters : Params → Filters
    unfolding parse_status model_of request_of
    read_filters p = record {
      status = parse_status (u.get "status" p);
      model = model_of p;
      key_id = or_default (u.get "key_id" p) "";
      range = parse_time_range parse_date (u.get "range" p);
      request = request_of p;
    }

    -- `hasFilters`
    unfoldable pub has_filters : Filters → Bool
    has_filters f =
        is_some f.status || not (f.model == "") || not (f.key_id == "") || is_some f.range

    -- `liveKey`
    unfoldable pub live_key : Logs Params → String
    unfolding read_filters
    live_key s =
        let f = read_filters s.params in
        append (elim f.status [ none ↦ "" | some t ↦ status_name t ])
          (append "|" (
            append f.model (
              append "|" (
                append f.key_id (
                  append "|" (
                    append (elim f.range [ none ↦ "" | some r ↦ time_range_key r ])
                      (append "|" (print_nat s.refresh_key))))))))

    -- What `useLiveTail` gets.
    unfoldable pub tail_options : List Row → Logs Params → Options
    unfolding live_key
    tail_options paged s =
        let id = request_of s.params in
        record {
          enabled = s.live;
          paused = s.scrolled_away || (not (id == "") && any (λ r. r.id == id) paged);
          open_row_id = present (some id);
          reset_key = live_key s;
          newest_loaded = head? paged;
        }

    -- `selectedRow`
    unfoldable pub selected_row : List Row → Logs Params → Option Row
    unfolding request_of
    selected_row rows s =
        let id = request_of s.params in if truthy id then find (λ r. r.id == id) rows else none

    -- `deepLinkMissing`; whether the query has succeeded and whether it is fetching
    unfoldable pub deep_link_missing : List Row → Bool → Bool → Logs Params → Bool
    unfolding selected_row
    deep_link_missing rows succeeded fetching s =
        not (request_of s.params == "")
        && not (is_some (selected_row rows s))
        && succeeded
        && not fetching

    -- `pauseReason`
    unfoldable pub pause_reason : List Row → Bool → Logs Params → Option String
    unfolding selected_row
    pause_reason rows hidden s =
        if not s.live
        then none
        else if hidden
        then some "Paused (tab hidden)"
        else if is_some (selected_row rows s)
        then some "Paused while viewing details"
        else if s.scrolled_away
        then some "Paused (scrolled down)"
        else none
