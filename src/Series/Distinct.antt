-- ===== src/Series/Distinct.antt =====
-- The buckets of an axis are different, and start at multiples of their size.
use wai_ai.Common.{
  ℕ, zero, suc, ◌+◌, ◌-◌, ◌%◌, ◌≤◌, ◌<◌, ◌≡◌, inl, inr, refl, sym, ap, subst, ◌∙◌, true, false,
  some, List, [], ◌∷◌, arith, length, drop, ltb, leb, All, All-drop, AllDistinct, of_Listed,
  either_way, Bool-cases,
}
use wai_ai.Series.{
  Granularity, granularity_ms, floor_to_bucket, bucket_starts, newest, keep_newest,
  build_bucket_axis,
}
use wai_ai.Series.Axis.{starts_step, size_pos, next_aligned, floor_aligned, bucket_starts_ends}

-- The starts increase.
later_starts : (ms size : ℕ) (xs : List ℕ) → All (λ x. ms + size ≤ x) xs → All (λ x. ms ≤ x) xs
later_starts ms size [] h = tt
later_starts ms size (x ∷ xs) (p, h) = (omega arith, later_starts ms size xs h)

bucket_starts-AllDistinct :
    (fuel size ms t : ℕ) (xs : List ℕ)
    → 0 < size
    → bucket_starts fuel size ms t ≡ some xs
    → All (λ x. ms ≤ x) xs × AllDistinct xs
unfolding bucket_starts
bucket_starts-AllDistinct zero size ms t [] p h = (tt, tt)
bucket_starts-AllDistinct zero size ms t (x ∷ xs) p h = absurd (ground arith)
bucket_starts-AllDistinct (suc fuel) size ms t xs p h = elim (Bool-cases (ltb ms t)) [
  | inl e ↦
      let (rest, run, shape) = starts_step fuel size ms t xs h e in
      let (later, distinct) = bucket_starts-AllDistinct fuel size (ms + size) t rest p run in
      subst (λ l. All (λ x. ms ≤ x) l × AllDistinct l) (sym shape)
        (
          (omega arith, later_starts ms size rest later),
          ((λ at. absurd (after p (of_Listed (λ x. ms + size ≤ x) ms rest later at))), distinct),
        )
  | inr e ↦
      let none_left : [] ≡ xs = no_more xs (sym (stop e) ∙ h) in
      subst (λ l. All (λ x. ms ≤ x) l × AllDistinct l) none_left (tt, tt)
]
  where
    after : 0 < size → ms + size ≤ ms → ⊥
    after q r = omega arith

    stop : ltb ms t ≡ false → bucket_starts (suc fuel) size ms t ≡ some []
    stop e = rw (e, bucket_starts) refl

    no_more : (ys : List ℕ) → some [] ≡ some ys → [] ≡ ys
    no_more ys q = cc

drop-AllDistinct : (n : ℕ) (xs : List ℕ) → AllDistinct xs → AllDistinct (drop n xs)
drop-AllDistinct zero xs d = d
drop-AllDistinct (suc n) [] d = d
drop-AllDistinct (suc n) (x ∷ xs) (fresh, d) = drop-AllDistinct n xs d

bucket_starts_aligned :
    (g : Granularity) (fuel ms t : ℕ) (xs : List ℕ)
    → ms % granularity_ms g ≡ 0
    → bucket_starts fuel (granularity_ms g) ms t ≡ some xs
    → All (λ x. x % granularity_ms g ≡ 0) xs
unfolding bucket_starts
bucket_starts_aligned g zero ms t [] a h = tt
bucket_starts_aligned g zero ms t (x ∷ xs) a h = absurd (ground arith)
bucket_starts_aligned g (suc fuel) ms t xs a h = elim (Bool-cases (ltb ms t)) [
  | inl e ↦
      let (rest, run, shape) = starts_step fuel (granularity_ms g) ms t xs h e in
      subst (All (λ x. x % granularity_ms g ≡ 0)) (sym shape)
        (a, bucket_starts_aligned g fuel (ms + granularity_ms g) t rest (next_aligned g ms a) run)
  | inr e ↦ subst (All (λ x. x % granularity_ms g ≡ 0)) (no_more xs (sym (stop e) ∙ h)) tt
]
  where
    stop : ltb ms t ≡ false → bucket_starts (suc fuel) (granularity_ms g) ms t ≡ some []
    stop e = rw (e, bucket_starts) refl

    no_more : (ys : List ℕ) → some [] ≡ some ys → [] ≡ ys
    no_more ys q = cc

-- The buckets are different, and start at multiples of their size.
abbrev pub IsAxis : Granularity → List ℕ → Type 0
IsAxis g xs = AllDistinct xs × All (λ x. x % granularity_ms g ≡ 0) xs

newest-IsAxis : (g : Granularity) (max : ℕ) (xs : List ℕ) → IsAxis g xs → IsAxis g (newest max xs)
unfolding newest
newest-IsAxis g max xs (d, a) =
    either_way (IsAxis g) (ltb max (length xs)) _ _
      (drop-AllDistinct _ xs d, All-drop (λ x. x % granularity_ms g ≡ 0) _ xs a) (d, a)

pub build_bucket_axis-IsAxis :
    (f t : ℕ) (g : Granularity) (max : ℕ) (axis : List ℕ)
    → build_bucket_axis (some f) (some t) g max ≡ some axis
    → IsAxis g axis
unfolding build_bucket_axis
build_bucket_axis-IsAxis f t g max axis h = elim (Bool-cases (leb t f)) [
  | inl e ↦ subst (IsAxis g) (inside [] axis (sym (closed e) ∙ h)) (tt, tt)
  | inr e ↦
      let start = floor_to_bucket f g in
      let (xs, run) =
        bucket_starts_ends (t - start) (granularity_ms g) start t (size_pos g) (omega arith) in
      let whole : IsAxis g xs = (
        (bucket_starts-AllDistinct (t - start) (granularity_ms g) start t xs (size_pos g) run).1,
        bucket_starts_aligned g (t - start) start t xs (floor_aligned g f) run,
      ) in
      subst (IsAxis g) (inside (newest max xs) axis (sym (kept xs run) ∙ sym (opened e) ∙ h))
        (newest-IsAxis g max xs whole)
]
  where
    closed : leb t f ≡ true → build_bucket_axis (some f) (some t) g max ≡ some []
    closed e = rw (e, build_bucket_axis) refl

    opened :
        leb t f ≡ false
        → build_bucket_axis (some f) (some t) g max
          ≡ keep_newest max
              (bucket_starts (t - floor_to_bucket f g) (granularity_ms g) (floor_to_bucket f g) t)
    opened e = rw (e, build_bucket_axis) refl

    kept :
        (xs : List ℕ)
        → bucket_starts (t - floor_to_bucket f g) (granularity_ms g) (floor_to_bucket f g) t
          ≡ some xs
        → keep_newest max
            (bucket_starts (t - floor_to_bucket f g) (granularity_ms g) (floor_to_bucket f g) t)
          ≡ some (newest max xs)
    kept xs e = ap (keep_newest max) e

    inside : (xs ys : List ℕ) → some xs ≡ some ys → xs ≡ ys
    inside xs ys q = cc
