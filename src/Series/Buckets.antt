-- ===== src/Series/Buckets.antt =====
-- Each bucket of a comparison holds the values of its own points.
use wai_ai.Common.{
  ℕ, suc, ◌+◌, ◌-◌, ◌%◌, ◌≡◌, inl, inr, refl, sym, ap, subst, ◌∙◌, String, Bool, true, false,
  Option, none, some, List, [], ◌∷◌, arith, map, filter, ltb, leb, eqb, eqb_iff, or_default, Listed,
  All, AllDistinct, ◌&&◌, Option-cases, Bool-cases, if◌then◌else◌,
}
use wai_ai.Series.{
  Granularity, hour, day, granularity_ms, Point, floor_to_bucket, bucket_start_ms,
  build_bucket_axis, max_buckets, index_of, add_at, add_if, bucket_of, add_point, add_points,
  align_to_axis,
}
use wai_ai.Series.Axis.{build_bucket_axis_ends}
use wai_ai.Series.Compare.{
  Labels, ComparePoint, compare_points, compare_on, compare_if, build_compare_series,
}
use wai_ai.Series.Distinct.{IsAxis, build_bucket_axis-IsAxis}

-- The values of points, none counting as 0.
abbrev pub total : List Point → ℕ
total [] = 0
total (p ∷ ps) = or_default p.value 0 + total ps

first :
    (b y : ℕ) (o : Option ℕ) (i : ℕ)
    → o ≡ none
    → elim o as (λ x. Option ℕ) [ some j ↦ some (suc j) | none ↦ if eqb b y then some 0 else none ]
      ≡ some i
    → b ≡ y
first b y none i e h = ground arith
first b y (some j) i e h = cc

index_of-Listed : (b : ℕ) (axis : List ℕ) (i : ℕ) → index_of b axis ≡ some i → Listed b axis
unfolding index_of
index_of-Listed b [] i h = cc
index_of-Listed b (y ∷ ys) i h = elim (Option-cases (index_of b ys)) [
  | inl e ↦ inl (first b y (index_of b ys) i e h)
  | inr (j, e) ↦ inr (index_of-Listed b ys j e)
]

-- The value is added at the bucket `b` alone.
abbrev added : ℕ → ℕ → (ℕ → ℕ) → ℕ → ℕ
added b v h ms = h ms + (if eqb b ms then v else 0)

add_none : (o : Option ℕ) (v : ℕ) → add_if o v [] ≡ []
unfolding add_if add_at
add_none none v = refl
add_none (some i) v = refl

add_if-cons :
    (o : Option ℕ) (c : Bool) (v x : ℕ) (xs : List ℕ)
    → ((i : ℕ) → o ≡ some i → c ≡ false)
    → add_if
        (elim o as (λ z. Option ℕ) [ some i ↦ some (suc i) | none ↦ if c then some 0 else none ])
        v
        (x ∷ xs)
      ≡ (x + (if c then v else 0)) ∷ add_if o v xs
unfolding add_if add_at
add_if-cons none true v x xs h = refl
add_if-cons none false v x xs h = ap (λ n. n ∷ xs) (omega arith)
add_if-cons (some i) c v x xs h = rw (h i refl) (ap (λ n. n ∷ add_at i v xs) (omega arith))

add_if-map :
    (b v : ℕ) (h : ℕ → ℕ) (axis : List ℕ)
    → AllDistinct axis
    → add_if (index_of b axis) v (map h axis) ≡ map (added b v h) axis
unfolding add_if add_at index_of
add_if-map b v h [] d = add_none (index_of b []) v
add_if-map b v h (y ∷ ys) (fresh, d) =
    add_if-cons (index_of b ys) (eqb b y) v (h y) (map h ys) other
    ∙ ap (◌∷◌ (added b v h y)) (add_if-map b v h ys d)
  where
    other : (i : ℕ) → index_of b ys ≡ some i → eqb b y ≡ false
    other i e = elim (Bool-cases (eqb b y)) [
      | inl same ↦
          absurd
            (fresh (subst (λ x. Listed x ys) ((eqb_iff b y).0 same) (index_of-Listed b ys i e)))
      | inr q ↦ q
    ]

map_same : {B : Type 0} (f h : ℕ → B) (xs : List ℕ) → All (λ x. f x ≡ h x) xs → map f xs ≡ map h xs
map_same f h [] q = refl
map_same f h (x ∷ xs) (e, q) = λ i. e i ∷ map_same f h xs q i

everywhere :
    {B : Type 0} (f h : ℕ → B) → ((x : ℕ) → f x ≡ h x) → (xs : List ℕ) → map f xs ≡ map h xs
everywhere f h q [] = refl
everywhere f h q (x ∷ xs) = λ i. q x i ∷ everywhere f h q xs i

floor_in_bucket :
    (g : Granularity) (x ms : ℕ)
    → ms % granularity_ms g ≡ 0
    → eqb (floor_to_bucket x g) ms ≡ (leb ms x && ltb x (ms + granularity_ms g))
unfolding floor_to_bucket
floor_in_bucket hour x ms a = ground arith
floor_in_bucket day x ms a = ground arith

module _ (parse_date : String → Option ℕ) (g : Granularity) (offset : ℕ) where
  -- A start that, shifted by the offset, lies in the bucket that starts at `ms`.
  abbrev pub starts_in : ℕ → Option ℕ → Bool
  starts_in ms none = false
  starts_in ms (some start) =
      leb ms (start + offset) && ltb (start + offset) (ms + granularity_ms g)

  abbrev pub falls_in : ℕ → Point → Bool
  falls_in ms p = starts_in ms (bucket_start_ms parse_date p.key)

  -- The values of the points in the bucket.
  abbrev pub bucket_total : List Point → ℕ → ℕ
  bucket_total points ms = total (filter (falls_in ms) points)

  abbrev value_at : Point → ℕ → ℕ
  value_at p ms = if falls_in ms p then or_default p.value 0 else 0

  bucket_total-cons :
      (p : Point) (ps : List Point) (ms : ℕ)
      → bucket_total (p ∷ ps) ms ≡ value_at p ms + bucket_total ps ms
  bucket_total-cons p ps ms = elim (Bool-cases (falls_in ms p)) [
    | inl e ↦ rw e refl
    | inr e ↦ rw e (omega arith)
  ]

  bucket_of-none :
      (p : Point) → bucket_start_ms parse_date p.key ≡ none → bucket_of parse_date g offset p ≡ none
  unfolding bucket_of
  bucket_of-none p e = rw (e, bucket_of) refl

  bucket_of-some :
      (p : Point) (start : ℕ)
      → bucket_start_ms parse_date p.key ≡ some start
      → bucket_of parse_date g offset p ≡ some (floor_to_bucket (start + offset) g)
  unfolding bucket_of
  bucket_of-some p start e = rw (e, bucket_of) refl

  add_point-none :
      (axis out : List ℕ) (p : Point)
      → bucket_of parse_date g offset p ≡ none
      → add_point parse_date axis g offset p out ≡ out
  unfolding add_point
  add_point-none axis out p e = rw (e, add_point) refl

  add_point-some :
      (axis out : List ℕ) (p : Point) (b : ℕ)
      → bucket_of parse_date g offset p ≡ some b
      → add_point parse_date axis g offset p out
        ≡ add_if (index_of b axis) (or_default p.value 0) out
  unfolding add_point
  add_point-some axis out p b e = rw (e, add_point) refl

  value_at-none : (p : Point) (ms : ℕ) → bucket_start_ms parse_date p.key ≡ none → value_at p ms ≡ 0
  value_at-none p ms e = ap (λ o. if starts_in ms o then or_default p.value 0 else 0) e

  value_at-some :
      (p : Point) (start ms : ℕ)
      → bucket_start_ms parse_date p.key ≡ some start
      → ms % granularity_ms g ≡ 0
      → value_at p ms
        ≡ (if eqb (floor_to_bucket (start + offset) g) ms then or_default p.value 0 else 0)
  value_at-some p start ms e a = rw e (
      ap (λ b. if◌then◌else◌ b (or_default p.value 0) 0)
        (sym (floor_in_bucket g (start + offset) ms a)))

  each_value :
      (h : ℕ → ℕ) (p : Point) (start : ℕ) (xs : List ℕ)
      → bucket_start_ms parse_date p.key ≡ some start
      → All (λ x. x % granularity_ms g ≡ 0) xs
      → All
          (λ ms.
            added (floor_to_bucket (start + offset) g) (or_default p.value 0) h ms
            ≡ h ms + value_at p ms)
          xs
  each_value h p start [] e a = tt
  each_value h p start (x ∷ xs) e (a, later) =
      (ap (λ n. h x + n) (sym (value_at-some p start x e a)), each_value h p start xs e later)

  module _ (axis : List ℕ) (on : IsAxis g axis) where
    add_point-map :
        (h : ℕ → ℕ) (p : Point)
        → add_point parse_date axis g offset p (map h axis) ≡ map (λ ms. h ms + value_at p ms) axis
    add_point-map h p = elim (Option-cases (bucket_start_ms parse_date p.key)) [
      | inl e ↦
          add_point-none axis (map h axis) p (bucket_of-none p e)
          ∙ everywhere h (λ ms. h ms + value_at p ms) (λ ms. omega (arith, value_at-none p ms e))
              axis
      | inr (start, e) ↦
          let b = floor_to_bucket (start + offset) g in
          let v = or_default p.value 0 in
          add_point-some axis (map h axis) p b (bucket_of-some p start e)
          ∙ add_if-map b v h axis on.0
          ∙ map_same (added b v h) (λ ms. h ms + value_at p ms) axis
              (each_value h p start axis e on.1)
    ]

    add_points-map :
        (h : ℕ → ℕ) (points : List Point)
        → add_points parse_date axis g offset points (map h axis)
          ≡ map (λ ms. h ms + bucket_total points ms) axis
    unfolding add_points
    add_points-map h [] = everywhere h (λ ms. h ms + 0) (λ ms. omega arith) axis
    add_points-map h (p ∷ ps) =
        ap (λ out. add_points parse_date axis g offset ps out) (add_point-map h p)
        ∙ add_points-map (λ ms. h ms + value_at p ms) ps
        ∙ everywhere _ _ (λ ms. omega (arith, bucket_total-cons p ps ms)) axis

    align_to_axis-map :
        (points : List Point)
        → align_to_axis parse_date axis points g offset ≡ map (bucket_total points) axis
    unfolding align_to_axis
    align_to_axis-map points =
        add_points-map (λ ms. 0) points ∙ everywhere _ _ (λ ms. omega arith) axis

-- The values of the window before, if it is compared.
abbrev pub totals_of : (String → Option ℕ) → Granularity → ℕ → Option (List Point) → Option (ℕ → ℕ)
totals_of parse_date g span none = none
totals_of parse_date g span (some points) = some (bucket_total parse_date g span points)

module _ (labels : Labels) where
  -- What a comparison shows at a bucket.
  abbrev pub point_at : (ℕ → ℕ) → Option (ℕ → ℕ) → ℕ → ComparePoint
  point_at cur none ms = record {
    bucket = labels.iso ms;
    label = labels.short ms;
    tooltip_label = labels.tooltip ms;
    value = some (cur ms);
    previous = none;
  }
  point_at cur (some prev) ms = record {
    bucket = labels.iso ms;
    label = labels.short ms;
    tooltip_label = labels.tooltip ms;
    value = some (cur ms);
    previous = some (prev ms);
  }

  compare_points-map :
      (cur prev : ℕ → ℕ) (axis : List ℕ)
      → compare_points labels axis (map cur axis) (some (map prev axis))
        ≡ map (point_at cur (some prev)) axis
  unfolding compare_points
  compare_points-map cur prev [] = refl
  compare_points-map cur prev (ms ∷ axis) =
      ap (λ l. point_at cur (some prev) ms ∷ l) (compare_points-map cur prev axis)

  compare_points-alone :
      (cur : ℕ → ℕ) (axis : List ℕ)
      → compare_points labels axis (map cur axis) none ≡ map (point_at cur none) axis
  unfolding compare_points
  compare_points-alone cur [] = refl
  compare_points-alone cur (ms ∷ axis) =
      ap (λ l. point_at cur none ms ∷ l) (compare_points-alone cur axis)

  compare_on-map :
      (parse_date : String → Option ℕ) (span : ℕ) (g : Granularity) (current : List Point)
      (previous : Option (List Point)) (axis : List ℕ)
      → IsAxis g axis
      → compare_on labels parse_date span g current previous axis
        ≡ map
            (point_at (bucket_total parse_date g 0 current) (totals_of parse_date g span previous))
            axis
  unfolding compare_on
  compare_on-map parse_date span g current none axis on =
      ap (λ cur. compare_points labels axis cur none)
        (align_to_axis-map parse_date g 0 axis on current)
      ∙ compare_points-alone (bucket_total parse_date g 0 current) axis
  compare_on-map parse_date span g current (some points) axis on =
      ap
        (λ cur. compare_points labels axis cur (some (align_to_axis parse_date axis points g span)))
        (align_to_axis-map parse_date g 0 axis on current)
      ∙ ap
          (λ prev.
            compare_points labels axis (map (bucket_total parse_date g 0 current) axis) (some prev))
          (align_to_axis-map parse_date g span axis on points)
      ∙ compare_points-map (bucket_total parse_date g 0 current)
          (bucket_total parse_date g span points) axis

-- For any window and any points, a comparison has one point for each bucket of the window's axis, in
-- its order. It shows the sum of the values of exactly those points whose start lies in the bucket,
-- and beside it, if the window before is given, that of exactly those of its points whose start does
-- so once it is moved by the length of the window. A value that is not finite counts as 0.
pub build_compare_series_lem :
    (labels : Labels) (parse_date : String → Option ℕ) (f t : ℕ) (g : Granularity)
    (current : List Point) (previous : Option (List Point))
    → (axis : List ℕ) × (build_bucket_axis (some f) (some t) g max_buckets ≡ some axis)
      × (build_compare_series labels parse_date f t g current previous
          ≡ some (
              map
                (point_at labels
                  (bucket_total parse_date g 0 current)
                  (totals_of parse_date g (t - f) previous))
                axis))
unfolding build_compare_series
build_compare_series_lem labels parse_date f t g current previous =
    let (axis, e, short) = build_bucket_axis_ends (some f) (some t) g max_buckets in
    let on = build_bucket_axis-IsAxis f t g max_buckets axis e in
    (
      axis,
      e,
      ap (compare_if labels parse_date (t - f) g current previous) e
          ∙ ap (λ l. some l) (compare_on-map labels parse_date (t - f) g current previous axis on),
    )
