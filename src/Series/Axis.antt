-- ===== src/Series/Axis.antt =====
-- The axis of a series: the loop ends, and every instant of the window has its bucket on it.
use wai_ai.Common.{
  ℕ, zero, suc, ◌+◌, ◌-◌, ◌%◌, ◌≤◌, ◌<◌, ◌≡◌, ◌⊎◌, inl, inr, refl, ap, sym, subst, ◌∙◌, lt→ltb,
  true, false, Option, none, some, List, [], ◌∷◌, arith, length, ltb, leb, Listed, Bool-cases,
  length-drop,
}
use wai_ai.Series.{
  Granularity, hour, day, granularity_ms, floor_to_bucket, push_before, bucket_starts, newest,
  keep_newest, build_bucket_axis,
}

push_before-some :
    (ms : ℕ) (o : Option (List ℕ))
    → ((xs : List ℕ) × (o ≡ some xs))
    → (xs : List ℕ) × (push_before ms o ≡ some xs)
unfolding push_before
push_before-some ms o (xs, e) = (ms ∷ xs, rw e refl)

-- With as many rounds as there are milliseconds left, the loop ends.
pub bucket_starts_ends :
    (fuel size ms t : ℕ)
    → 0 < size
    → t ≤ ms + fuel
    → (xs : List ℕ) × (bucket_starts fuel size ms t ≡ some xs)
unfolding bucket_starts
bucket_starts_ends zero size ms t p h = ([], ground arith)
bucket_starts_ends (suc fuel) size ms t p h = elim (Bool-cases (ltb ms t)) [
  | inl e ↦
      rw (e, bucket_starts)
        (push_before-some ms _ (bucket_starts_ends fuel size (ms + size) t p (omega arith)))
  | inr e ↦ ([], rw (e, bucket_starts) refl)
]

pub size_pos : (g : Granularity) → 0 < granularity_ms g
size_pos hour = omega arith
size_pos day = omega arith

next_start :
    (g : Granularity) (ms b : ℕ)
    → ms % granularity_ms g ≡ 0
    → b % granularity_ms g ≡ 0
    → ms < b
    → ms + granularity_ms g ≤ b
next_start hour ms b h k lt = omega arith
next_start day ms b h k lt = omega arith

pub next_aligned :
    (g : Granularity) (ms : ℕ)
    → ms % granularity_ms g ≡ 0
    → (ms + granularity_ms g) % granularity_ms g ≡ 0
next_aligned hour ms h = omega arith
next_aligned day ms h = omega arith

pub floor_aligned : (g : Granularity) (ms : ℕ) → floor_to_bucket ms g % granularity_ms g ≡ 0
unfolding floor_to_bucket
floor_aligned hour ms = omega arith
floor_aligned day ms = omega arith

pub floor_below : (g : Granularity) (ms : ℕ) → floor_to_bucket ms g ≤ ms
unfolding floor_to_bucket
floor_below hour ms = omega arith
floor_below day ms = omega arith

floor_mono : (g : Granularity) (f x : ℕ) → f ≤ x → floor_to_bucket f g ≤ floor_to_bucket x g
unfolding floor_to_bucket
floor_mono hour f x h = omega arith
floor_mono day f x h = omega arith

push_before_inv :
    (ms : ℕ) (o : Option (List ℕ)) (xs : List ℕ)
    → push_before ms o ≡ some xs
    → (rest : List ℕ) × (o ≡ some rest) × (xs ≡ ms ∷ rest)
unfolding push_before
push_before_inv ms none xs h = cc
push_before_inv ms (some rest) xs h = (rest, refl, cc)

pub starts_step :
    (fuel size ms t : ℕ) (xs : List ℕ)
    → bucket_starts (suc fuel) size ms t ≡ some xs
    → ltb ms t ≡ true
    → (rest : List ℕ) × (bucket_starts fuel size (ms + size) t ≡ some rest) × (xs ≡ ms ∷ rest)
unfolding bucket_starts push_before
starts_step fuel size ms t xs h e = push_before_inv ms _ xs (sym step ∙ h)
  where
    step :
        bucket_starts (suc fuel) size ms t ≡ push_before ms (bucket_starts fuel size (ms + size) t)
    step = rw (e, bucket_starts) refl

eq_or_lt : (a b : ℕ) → a ≤ b → (a ≡ b) ⊎ (a < b)
eq_or_lt a b h = ground arith

-- Every aligned instant from `ms` up to `t` is among the starts.
starts_cover :
    (g : Granularity) (fuel ms t b : ℕ) (xs : List ℕ)
    → bucket_starts fuel (granularity_ms g) ms t ≡ some xs
    → ms % granularity_ms g ≡ 0
    → b % granularity_ms g ≡ 0
    → ms ≤ b
    → b < t
    → Listed b xs
unfolding bucket_starts push_before
starts_cover g zero ms t b xs h am ab le lt = absurd (ground arith)
starts_cover g (suc fuel) ms t b xs h am ab le lt =
    let (rest, e, shape) =
      starts_step fuel (granularity_ms g) ms t xs h (lt→ltb ms t (omega arith)) in
    subst (Listed b) (sym shape) (elim (eq_or_lt ms b le) [
      | inl eq ↦ inl (sym eq)
      | inr before ↦ inr (
          starts_cover g fuel (ms + granularity_ms g) t b rest e (next_aligned g ms am) ab
            (next_start g ms b am ab before) lt)
    ])

-- What the axis holds, before the cap.
length-newest : (max : ℕ) (xs : List ℕ) → length (newest max xs) ≤ max
unfolding newest
length-newest max xs = ground (arith, length-drop (length xs - max) xs)

keep_newest-some :
    (max : ℕ) (o : Option (List ℕ))
    → ((xs : List ℕ) × (o ≡ some xs))
    → (axis : List ℕ) × (keep_newest max o ≡ some axis) × (length axis ≤ max)
unfolding keep_newest
keep_newest-some max o (xs, e) = (newest max xs, rw e refl, length-newest max xs)

-- For any window the loop ends, and the axis has at most `max` buckets.
pub build_bucket_axis_ends :
    (from to : Option ℕ) (g : Granularity) (max : ℕ)
    → (axis : List ℕ) × (build_bucket_axis from to g max ≡ some axis) × (length axis ≤ max)
unfolding build_bucket_axis
build_bucket_axis_ends none to g max = ([], refl, omega arith)
build_bucket_axis_ends (some f) none g max = ([], refl, omega arith)
build_bucket_axis_ends (some f) (some t) g max = elim (Bool-cases (leb t f)) [
  | inl e ↦ ([], rw (e, build_bucket_axis) refl, omega arith)
  | inr e ↦
      let start = floor_to_bucket f g in
      let enough : t ≤ start + (t - start) = omega arith in
      rw (e, build_bucket_axis)
        (keep_newest-some max _
          (bucket_starts_ends (t - start) (granularity_ms g) start t (size_pos g) enough))
]

newest-short : (max : ℕ) (xs : List ℕ) → length (newest max xs) < max → newest max xs ≡ xs
unfolding newest
newest-short max xs h = ground (arith, length-drop (length xs - max) xs)

keep_newest_inv :
    (max : ℕ) (o : Option (List ℕ)) (axis : List ℕ)
    → keep_newest max o ≡ some axis
    → length axis < max
    → o ≡ some axis
unfolding keep_newest
keep_newest_inv max none axis h short = cc
keep_newest_inv max (some xs) axis h short =
    let same : newest max xs ≡ axis = cc in
    let small : length (newest max xs) < max = subst (λ ys. length ys < max) (sym same) short in
    ap (λ ys. some ys) (sym (newest-short max xs small) ∙ same)

-- If the cap was not reached, the bucket of every instant of the window is on the axis.
pub build_bucket_axis_covers :
    (f t : ℕ) (g : Granularity) (max : ℕ) (axis : List ℕ) (x : ℕ)
    → build_bucket_axis (some f) (some t) g max ≡ some axis
    → length axis < max
    → f ≤ x
    → x < t
    → Listed (floor_to_bucket x g) axis
unfolding build_bucket_axis
build_bucket_axis_covers f t g max axis x h short le lt =
    starts_cover g (t - floor_to_bucket f g) (floor_to_bucket f g) t (floor_to_bucket x g) axis
      (keep_newest_inv max _ axis (sym uncapped ∙ h) short) (floor_aligned g f) (floor_aligned g x)
      (floor_mono g f x le) (omega (arith, floor_below g x))
  where
    open_window : leb t f ≡ false
    open_window = ground arith

    uncapped :
        build_bucket_axis (some f) (some t) g max
        ≡ keep_newest max
            (bucket_starts (t - floor_to_bucket f g) (granularity_ms g) (floor_to_bucket f g) t)
    uncapped = rw (open_window, build_bucket_axis) refl
