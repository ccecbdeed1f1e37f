-- ===== src/Logs/Page.antt =====
-- ui/src/pages/usage/RequestLogsPage.tsx: what the request log does on each event, and the render after
-- it.
use wai_ai.Common.{
  ℕ, suc, ◌-◌, min, String, Bool, true, false, not, ◌&&◌, ◌||◌, Option, none, some, List, [], ◌∷◌,
  length, ltb, or_default, if◌then◌else◌, ◌==◌,
}
use wai_ai.Common.Int.{ℤ}
use wai_ai.Common.Text.{present, trim}
use wai_ai.Controls.Segmented.{nth}
use wai_ai.LiveTail.{Row}
use wai_ai.Logs.{
  UrlParams, StatusFilter, optional_name, Logs, update_params, model_of, request_of, read_filters,
}
use wai_ai.TimeRange.{TimeRangeValue, preset, one_day, time_range_key}

-- A key in the table: whether Alt, Ctrl or Meta is held, and where it is pressed: in a field that is
-- edited, or on a button or a link.
pub record TableKey : Type 0 where
  pub key : String
  pub modified : Bool
  pub editable : Bool
  pub on_control : Bool

-- What the page tells the live tail, the query library and the browser.
pub data LogsCommand : Type 0 where
  flush refetch scroll_to_top : LogsCommand

pub data LogsEvent (Params : Type 0) : Type 0 where
  choose_status : Option StatusFilter → LogsEvent Params
  type_model : String → LogsEvent Params
  press_enter model_timer : LogsEvent Params
  choose_time_mode : Bool → LogsEvent Params
  choose_range : TimeRangeValue → LogsEvent Params
  remove_key dismiss_link close_details : LogsEvent Params
  clear_filters refresh jump_to_top : LogsEvent Params
  toggle_live : Bool → ℕ → LogsEvent Params
  scroll : ℕ → LogsEvent Params
  navigate : Params → LogsEvent Params
  click_row : String → LogsEvent Params
  focus_button : ℕ → LogsEvent Params
  press_key : TableKey → LogsEvent Params

-- `LIVE_SCROLL_PAUSE_PX`
abbrev pub live_scroll_pause : ℕ
live_scroll_pause = 200

module _ {Params : Type 0} (u : UrlParams Params) (parse_date : String → Option ℤ) where
  -- The change of the parameters by the page.
  unfoldable pub change : String → Option String → Logs Params → Logs Params
  unfolding update_params
  change k v s = record s { params = update_params u ((k, v) ∷ []) s.params }

  -- `trimmed || null`
  unfoldable pub model_change : Logs Params → Option String
  model_change s = present (some (trim s.model_draft))

  -- The focus goes to the row, if there is one.
  abbrev pub focus_at : ℕ → Option Row → Logs Params → Logs Params
  focus_at clamped none s = s
  focus_at clamped (some r) s = record s { active_index = clamped; focused = some r.id }

  -- `focusRow`, of an index that is not below 0
  unfoldable pub focus_row : List Row → ℕ → Logs Params → Logs Params
  unfolding nth
  focus_row rows index s =
      let clamped = min index (length rows - 1) in focus_at clamped (nth clamped rows) s

  -- `openRow`, if there is a row
  abbrev pub open_at : Option Row → Logs Params → Logs Params
  open_at none s = s
  open_at (some r) s = change "request" (some r.id) s

  -- `onTableKeyDown`. With no rows, `current` is -1 in the code, where there is no row; and the index
  -- before the first row is the first again in `focusRow`.
  unfoldable pub on_table_key_down : List Row → TableKey → Logs Params → Logs Params
  unfolding focus_row change
  on_table_key_down rows e s =
      let current = min s.active_index (length rows - 1) in
      if e.modified || e.editable
      then s
      else if e.key == "j"
      then focus_row rows (suc current) s
      else if e.key == "k"
      then focus_row rows (current - 1) s
      else if e.key == "Enter" && not e.on_control
      then open_at (nth current rows) s
      else s

  -- `onScroll`
  unfoldable pub on_scroll : ℕ → Logs Params → Logs Params × List LogsCommand
  unfolding request_of
  on_scroll y s =
      let away = ltb live_scroll_pause y in
      (
        record s { scrolled_away = away },
        if not away && request_of u s.params == "" then flush ∷ [] else [],
      )

  unfoldable pub handle : List Row → LogsEvent Params → Logs Params → Logs Params × List LogsCommand
  unfolding change model_change read_filters on_scroll on_table_key_down
  handle rows (choose_status st) s = (change "status" (optional_name st) s, [])
  handle rows (type_model text) s = (record s { model_draft = text }, [])
  handle rows press_enter s = (change "model" (model_change s) s, [])
  handle rows model_timer s = (
    if trim s.model_draft == model_of u s.params then s else change "model" (model_change s) s,
    [],
  )
  handle rows (choose_time_mode false) s = (change "range" none s, [])
  handle rows (choose_time_mode true) s = (
    change "range"
        (some
          (time_range_key (or_default (read_filters u parse_date s.params).range (preset one_day))))
        s,
    [],
  )
  handle rows (choose_range v) s = (change "range" (some (time_range_key v)) s, [])
  handle rows remove_key s = (change "key_id" none s, [])
  handle rows dismiss_link s = (change "request" none s, [])
  handle rows close_details s =
      (change "request" none s, if s.scrolled_away then [] else flush ∷ [])
  handle rows clear_filters s = (record s { model_draft = ""; params = u.empty }, [])
  handle rows refresh s = elim (read_filters u parse_date s.params).range [
    | some (preset p) ↦ (record s { refresh_key = suc s.refresh_key }, [])
    | _ ↦ (s, refetch ∷ [])
  ]
  handle rows jump_to_top s = (record s { scrolled_away = false }, scroll_to_top ∷ flush ∷ [])
  handle rows (toggle_live on y) s =
      let t = record s { live = on } in if on then on_scroll y t else (t, [])
  handle rows (scroll y) s = if s.live then on_scroll y s else (s, [])
  handle rows (navigate p) s = (record s { params = p }, [])
  handle rows (click_row id) s = (change "request" (some id) s, [])
  handle rows (focus_button i) s = (
    record s { active_index = i; focused = elim (nth i rows) [ none ↦ none | some r ↦ some r.id ] },
    [],
  )
  handle rows (press_key e) s = (on_table_key_down rows e s, [])

  -- The render after an event: the text of the model follows the parameters.
  unfoldable pub sync : Logs Params → Logs Params
  unfolding model_of
  sync s =
      let model = model_of u s.params in
      if s.synced_model == model then s else record s { synced_model = model; model_draft = model }

  unfoldable pub on_event :
      List Row → LogsEvent Params → Logs Params → Logs Params × List LogsCommand
  unfolding handle sync
  on_event rows e s = let r = handle rows e s in (sync r.0, r.1)

  -- The first render.
  unfoldable pub open_logs : Params → Logs Params
  unfolding model_of
  open_logs p = record {
    params = p;
    model_draft = model_of u p;
    synced_model = model_of u p;
    refresh_key = 0;
    live = false;
    scrolled_away = false;
    active_index = 0;
    focused = none;
  }

  -- Events, each with the rows that are shown at that time.
  unfoldable pub on_events : List (List Row × LogsEvent Params) → Logs Params → Logs Params
  unfolding on_event
  on_events [] s = s
  on_events ((rows, e) ∷ es) s = on_events es (on_event rows e s).0
