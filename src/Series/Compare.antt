-- ===== src/Series/Compare.antt =====
-- ui/src/components/analytics/compareSeries.ts: the series of a window beside that of the window before.
-- The parsed ends of the window and the labels of a bucket are arguments.
use wai_ai.Common.{ℕ, ◌-◌, String, Option, none, some, List, [], ◌∷◌, drop, head?}
use wai_ai.Series.{Granularity, Point, align_to_axis, build_bucket_axis, max_buckets}

-- `ComparePoint`
pub record ComparePoint : Type 0 where
  pub bucket : String
  pub label : String
  pub tooltip_label : String
  pub value : Option ℕ
  pub previous : Option ℕ

-- `bucketIso`, `formatBucketLabel` and `formatBucketTooltip`
pub record Labels : Type 0 where
  pub iso : ℕ → String
  pub short : ℕ → String
  pub tooltip : ℕ → String

module _ (labels : Labels) where
  -- `axis.map(…)` from the index that `cur` and `prev` have come to; none is undefined.
  unfoldable pub compare_points : List ℕ → List ℕ → Option (List ℕ) → List ComparePoint
  compare_points [] cur prev = []
  compare_points (ms ∷ axis) cur prev =
      record {
        bucket = labels.iso ms;
        label = labels.short ms;
        tooltip_label = labels.tooltip ms;
        value = head? cur;
        previous = elim prev [ none ↦ none | some p ↦ head? p ];
      }
      ∷ compare_points axis (drop 1 cur) (elim prev [ none ↦ none | some p ↦ some (drop 1 p) ])

  -- The two series on an axis.
  unfoldable pub compare_on :
      (String → Option ℕ)
      → ℕ
      → Granularity
      → List Point
      → Option (List Point)
      → List ℕ
      → List ComparePoint
  unfolding compare_points
  compare_on parse_date span g current previous axis =
      compare_points axis (align_to_axis parse_date axis current g 0) (elim previous [
        | none ↦ none
        | some points ↦ some (align_to_axis parse_date axis points g span)
      ])

  unfoldable pub compare_if :
      (String → Option ℕ)
      → ℕ
      → Granularity
      → List Point
      → Option (List Point)
      → Option (List ℕ)
      → Option (List ComparePoint)
  unfolding compare_on
  compare_if parse_date span g current previous none = none
  compare_if parse_date span g current previous (some axis) =
      some (compare_on parse_date span g current previous axis)

  -- `buildCompareSeries`. A window that ends before it begins has no buckets, so that its negative span
  -- shifts nothing.
  unfoldable pub build_compare_series :
      (String → Option ℕ)
      → ℕ
      → ℕ
      → Granularity
      → List Point
      → Option (List Point)
      → Option (List ComparePoint)
  unfolding compare_if
  build_compare_series parse_date f t g current previous =
      compare_if parse_date (t - f) g current previous
        (build_bucket_axis (some f) (some t) g max_buckets)
