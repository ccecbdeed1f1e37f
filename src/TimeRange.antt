-- ===== src/TimeRange.antt =====
-- ui/src/lib/timeRange.ts: the time ranges of the usage pages, their keys for search parameters, and
-- their bounds. `Date`, where none is an invalid date, is an argument; a date is the integer of its
-- milliseconds. The labels and the values of date inputs are not modelled.
pub mod RoundTrip
mod Tests
use Prim.Native.Char.{Char, code}
use Prim.Native.String.{String}
use wai_ai.Common.{
  ℕ, ◌*◌, Bool, true, false, not, ◌&&◌, ◌||◌, Option, none, some, eqb, is_some, if◌then◌else◌, ◌==◌,
}
use wai_ai.Common.Int.{ℤ, pos, ◌-ℤ◌, leb_ℤ, ltb_ℤ}
use wai_ai.Common.Text.{append, truthy, present}
use wai_ai.Series.{Granularity, hour, day}

-- `TimeRangePreset`
pub data TimeRangePreset : Type 0 where
  one_hour one_day one_week one_month one_quarter : TimeRangePreset

abbrev pub preset_name : TimeRangePreset → String
preset_name one_hour = "1h"
preset_name one_day = "24h"
preset_name one_week = "7d"
preset_name one_month = "30d"
preset_name one_quarter = "90d"

-- `TIME_RANGE_HOURS`
abbrev pub time_range_hours : TimeRangePreset → ℕ
time_range_hours one_hour = 1
time_range_hours one_day = 24
time_range_hours one_week = 168
time_range_hours one_month = 720
time_range_hours one_quarter = 2160

-- `TimeRangeValue`; a custom range has its ends.
pub data TimeRangeValue : Type 0 where
  preset : TimeRangePreset → TimeRangeValue
  custom : (from to : String) → TimeRangeValue

-- `isTimeRangePreset`, with the preset
unfoldable pub read_preset : String → Option TimeRangePreset
read_preset raw =
    if raw == "1h"
    then some one_hour
    else if raw == "24h"
    then some one_day
    else if raw == "7d"
    then some one_week
    else if raw == "30d"
    then some one_month
    else if raw == "90d"
    then some one_quarter
    else none

-- `timeRangeKey`
unfoldable pub time_range_key : TimeRangeValue → String
unfolding append
time_range_key (preset p) = preset_name p
time_range_key (custom from to) = append from (append ".." to)

abbrev pub is_dot : Char → Bool
is_dot c = eqb (code c) 46

-- `raw.split('..')`: the first part, and the text after it if there is one.
unfoldable pub first_part : String → String
first_part String.[] = String.[]
first_part (String.◌∷◌ c String.[]) = String.◌∷◌ c String.[]
first_part (String.◌∷◌ c (String.◌∷◌ d s)) =
    let rest = first_part (String.◌∷◌ d s) in
    if is_dot c && is_dot d then String.[] else String.◌∷◌ c rest

unfoldable pub other_parts : String → Option String
other_parts String.[] = none
other_parts (String.◌∷◌ c String.[]) = none
other_parts (String.◌∷◌ c (String.◌∷◌ d s)) =
    let rest = other_parts (String.◌∷◌ d s) in if is_dot c && is_dot d then some s else rest

module _ (parse_date : String → Option ℤ) where
  -- The tests of the two ends.
  unfoldable pub custom_of : String → String → Option TimeRangeValue
  custom_of from to =
      if not (truthy from) || not (truthy to)
      then none
      else if not (is_some (parse_date from)) || not (is_some (parse_date to))
      then none
      else some (custom from to)

  unfoldable pub parse_custom : String → Option TimeRangeValue
  unfolding first_part other_parts custom_of
  parse_custom raw = elim (other_parts raw) [
    | none ↦ none
    | some rest ↦ custom_of (first_part raw) (first_part rest)
  ]

  unfoldable pub parse_or : Option TimeRangePreset → String → Option TimeRangeValue
  unfolding parse_custom
  parse_or (some p) raw = some (preset p)
  parse_or none raw = parse_custom raw

  -- `parseTimeRange`
  unfoldable pub parse_time_range : Option String → Option TimeRangeValue
  unfolding parse_or read_preset
  parse_time_range none = none
  parse_time_range (some raw) = if truthy raw then parse_or (read_preset raw) raw else none

  abbrev hour_ms : ℕ
  hour_ms = 3600000

  -- `ResolvedTimeRange`, with the dates before `toISOString` and the span in milliseconds, of which
  -- `hours` is the quotient by an hour.
  pub record ResolvedTimeRange : Type 0 where
    pub from : ℤ
    pub to : ℤ
    pub span : ℤ
    pub granularity : Granularity
    pub preset_or_null : Option TimeRangePreset

  -- `granularityForHours`, of the milliseconds
  unfoldable pub granularity_for : ℤ → Granularity
  granularity_for span = if leb_ℤ span (pos (48 * hour_ms)) then hour else day

  -- `Math.max(0, …)`
  unfoldable pub at_least_0 : ℤ → ℤ
  at_least_0 n = if ltb_ℤ n (pos 0) then pos 0 else n

  unfoldable pub resolve_custom : Option ℤ → Option ℤ → Option ResolvedTimeRange
  unfolding granularity_for at_least_0
  resolve_custom (some f) (some t) =
      let span = at_least_0 (t -ℤ f) in
      some (record {
        from = f;
        to = t;
        span = span;
        granularity = granularity_for span;
        preset_or_null = none;
      })
  resolve_custom _ _ = none

  -- `getTimeRange`; none where `toISOString` throws on an invalid date.
  unfoldable pub get_time_range : TimeRangeValue → ℤ → Option ResolvedTimeRange
  unfolding resolve_custom
  get_time_range (custom from to) now = resolve_custom (parse_date from) (parse_date to)
  get_time_range (preset p) now =
      let span = pos (time_range_hours p * hour_ms) in
      some (record {
        from = now -ℤ span;
        to = now;
        span = span;
        granularity = granularity_for span;
        preset_or_null = some p;
      })
