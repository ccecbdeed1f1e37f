-- ===== src/TimeRange/Tests.antt =====
-- A range of two days.
use wai_ai.Common.{◌≡◌, refl, String, true, Option, none, some}
use wai_ai.Common.Int.{ℤ, pos}
use wai_ai.Series.{hour}
use wai_ai.TimeRange.{
  one_week, TimeRangeValue, preset, custom, time_range_key, parse_time_range, granularity_for,
}
use wai_ai.TimeRange.RoundTrip.{dot_safe, parse_time_range-time_range_key}

abbrev two_days : TimeRangeValue
two_days = custom "2026-01-01T00:00:00.000Z" "2026-01-03T00:00:00.000Z"

abbrev any_date : String → Option ℤ
any_date s = some (pos 0)

key : time_range_key two_days ≡ "2026-01-01T00:00:00.000Z..2026-01-03T00:00:00.000Z"
unfolding time_range_key
key = refl

week : parse_time_range any_date (some "7d") ≡ some (preset one_week)
unfolding parse_time_range
week = refl

one_end : parse_time_range any_date (some "2026-01-01..") ≡ none
unfolding parse_time_range
one_end = refl

two_days_by_hour : granularity_for any_date (pos 172800000) ≡ hour
unfolding granularity_for
two_days_by_hour = refl

safe_from : dot_safe "2026-01-01T00:00:00.000Z" ≡ true
unfolding dot_safe
safe_from = refl

safe_to : dot_safe "2026-01-03T00:00:00.000Z" ≡ true
unfolding dot_safe
safe_to = refl

parse_time_range-time_range_key_example :
    parse_time_range any_date (some (time_range_key two_days)) ≡ some two_days
parse_time_range-time_range_key_example =
    parse_time_range-time_range_key any_date two_days (safe_from, safe_to, refl, refl, refl, refl)
