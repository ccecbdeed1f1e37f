-- ===== src/Series/Tests.antt =====
-- Four hours of requests, and the four before them.
use wai_ai.Common.{
  ℕ, ◌≡◌, ◌≤◌, ◌-◌, refl, String, Option, none, some, List, [], ◌∷◌, map, length, arith, Listed,
  if◌then◌else◌, ◌==◌,
}
use wai_ai.Series.{
  hour, Point, build_bucket_axis, floor_to_bucket, max_buckets, align_to_axis, bucket_start_ms,
}
use wai_ai.Series.Axis.{build_bucket_axis_ends, build_bucket_axis_covers}
use wai_ai.Series.Buckets.{point_at, bucket_total, totals_of, build_compare_series_lem}
use wai_ai.Series.Compare.{Labels, build_compare_series}

-- Instants of two texts; the others do not parse.
abbrev parse : String → Option ℕ
parse s =
    if s == "1970-01-02T05:00:00Z"
    then some 104400000
    else if s == "1970-01-02T00:00:00Z"
    then some 86400000
    else if s == "1970-01-02T02:00:00Z"
    then some 93600000
    else none

abbrev from : ℕ
from = 101000000

abbrev to : ℕ
to = 112000000

abbrev four : List ℕ
four = 100800000 ∷ 104400000 ∷ 108000000 ∷ 111600000 ∷ []

axis : build_bucket_axis (some from) (some to) hour max_buckets ≡ some four
unfolding build_bucket_axis
axis = refl

cut_to_two : build_bucket_axis (some from) (some to) hour 2 ≡ some (108000000 ∷ 111600000 ∷ [])
unfolding build_bucket_axis
cut_to_two = refl

empty : build_bucket_axis (some to) (some from) hour max_buckets ≡ some []
unfolding build_bucket_axis
empty = refl

abbrev now : List Point
now =
    record { key = "1970-01-02T05"; value = some 7 }
    ∷ record { key = "1970-01-02T05:00:00Z"; value = some 5 }
    ∷ []

abbrev before : List Point
before = record { key = "1970-01-02T02"; value = some 3 } ∷ []

abbrev plain : Labels
plain = record { iso = λ ms. ""; short = λ ms. ""; tooltip = λ ms. "" }

hours : bucket_start_ms parse "1970-01-02T05" ≡ some 104400000
unfolding bucket_start_ms
hours = refl

instant : bucket_start_ms parse "1970-01-02T05:00:00Z" ≡ some 104400000
unfolding bucket_start_ms
instant = refl

days : bucket_start_ms parse "1970-01-02" ≡ some 86400000
unfolding bucket_start_ms
days = refl

aligned : align_to_axis parse four now hour 0 ≡ 0 ∷ 12 ∷ 0 ∷ 0 ∷ []
unfolding align_to_axis
aligned = refl

earlier : bucket_start_ms parse "1970-01-02T02" ≡ some 93600000
unfolding bucket_start_ms
earlier = refl

build_bucket_axis_ends_example :
    (xs : List ℕ) × (build_bucket_axis (some from) (some to) hour 2 ≡ some xs) × (length xs ≤ 2)
build_bucket_axis_ends_example = build_bucket_axis_ends (some from) (some to) hour 2

build_bucket_axis_covers_example : Listed (floor_to_bucket 105000000 hour) four
build_bucket_axis_covers_example =
    build_bucket_axis_covers from to hour max_buckets four 105000000 axis (omega arith)
      (omega arith) (omega arith)

-- In an hour and a half, the first bucket of the window before moves to before the axis.
first_lost :
    build_compare_series plain parse from 106400000 hour [] (some before)
    ≡ some (map (point_at plain (λ ms. 0) (some (λ ms. 0))) (100800000 ∷ 104400000 ∷ []))
unfolding build_compare_series build_bucket_axis align_to_axis
first_lost = refl

build_compare_series_lem_example :
    (xs : List ℕ) × (build_bucket_axis (some from) (some to) hour max_buckets ≡ some xs)
    × (build_compare_series plain parse from to hour now (some before)
        ≡ some (
            map
              (point_at plain
                (bucket_total parse hour 0 now)
                (totals_of parse hour (to - from) (some before)))
              xs))
build_compare_series_lem_example =
    build_compare_series_lem plain parse from to hour now (some before)
