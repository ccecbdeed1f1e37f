-- ===== src/TimeRange/RoundTrip.antt =====
-- A range is read back from its key.
use Prim.Native.Char.{Char}
use Prim.Native.String.{String, [], ◌∷◌}
use wai_ai.Common.{
  ◌≡◌, refl, ap, Bool, true, false, not, ◌&&◌, Option, none, some, arith, is_some, eq_iff,
  Bool-cases, inl, inr, ◌==◌, and_left, and_right, not-true,
}
use wai_ai.Common.Int.{ℤ}
use wai_ai.Common.Text.{append, truthy}
use wai_ai.TimeRange.{
  one_hour, one_day, one_week, one_month, one_quarter, TimeRangeValue, preset, custom, read_preset,
  time_range_key, is_dot, first_part, other_parts, custom_of, parse_custom, parse_or,
  parse_time_range,
}

-- No two dots follow each other, and the last character is none: so it is in every ISO date.
unfoldable pub dot_safe : String → Bool
dot_safe [] = true
dot_safe (c ∷ []) = not (is_dot c)
dot_safe (c ∷ d ∷ s) = not (is_dot c && is_dot d) && dot_safe (d ∷ s)

safe_rest : (c d : Char) (s : String) → dot_safe (c ∷ d ∷ s) ≡ true → dot_safe (d ∷ s) ≡ true
unfolding dot_safe
safe_rest c d s h = and_right (not (is_dot c && is_dot d)) _ h

not_both : (c d : Char) (s : String) → dot_safe (c ∷ d ∷ s) ≡ true → (is_dot c && is_dot d) ≡ false
unfolding dot_safe
not_both c d s h = not-true _ (and_left _ (dot_safe (d ∷ s)) h)

last_not : (c : Char) (d : Char) → dot_safe (c ∷ []) ≡ true → (is_dot c && is_dot d) ≡ false
unfolding dot_safe
last_not c d h = ground arith

first_part-key : (f t : String) → dot_safe f ≡ true → first_part (append f (append ".." t)) ≡ f
unfolding first_part append
first_part-key [] t h = refl
first_part-key (c ∷ []) t h = rw (last_not c "." h) refl
first_part-key (c ∷ d ∷ s) t h =
    rw (not_both c d s h) (ap (◌∷◌ c) (first_part-key (d ∷ s) t (safe_rest c d s h)))

other_parts-key :
    (f t : String) → dot_safe f ≡ true → other_parts (append f (append ".." t)) ≡ some t
unfolding other_parts append
other_parts-key [] t h = refl
other_parts-key (c ∷ []) t h = rw (last_not c "." h) refl
other_parts-key (c ∷ d ∷ s) t h =
    rw (not_both c d s h) (other_parts-key (d ∷ s) t (safe_rest c d s h))

first_part-safe : (t : String) → dot_safe t ≡ true → first_part t ≡ t
unfolding first_part
first_part-safe [] h = refl
first_part-safe (c ∷ []) h = refl
first_part-safe (c ∷ d ∷ s) h =
    rw (not_both c d s h) (ap (◌∷◌ c) (first_part-safe (d ∷ s) (safe_rest c d s h)))

-- A text with two parts is not the name of a preset.
not_name :
    (raw name t : String)
    → other_parts raw ≡ some t
    → other_parts name ≡ none
    → (raw == name) ≡ false
not_name raw name t h k = elim (Bool-cases (raw == name)) [
  | inl e ↦ absurd (clash ((eq_iff raw name).0 e))
  | inr e ↦ e
]
  where
    clash : raw ≡ name → ⊥
    clash e = cc

read_preset-parts : (raw t : String) → other_parts raw ≡ some t → read_preset raw ≡ none
unfolding read_preset other_parts
read_preset-parts raw t h =
    rw
      (
        not_name raw "1h" t h refl,
        not_name raw "24h" t h refl,
        not_name raw "7d" t h refl,
        not_name raw "30d" t h refl,
        not_name raw "90d" t h refl,
      )
      refl

-- Ends that are dates without adjacent dots, none of them empty.
abbrev pub IsReadable : (String → Option ℤ) → TimeRangeValue → Type 0
IsReadable parse_date (preset p) = Unit
IsReadable parse_date (custom from to) =
    (dot_safe from ≡ true)
    × (dot_safe to ≡ true)
    × (truthy from ≡ true)
    × (truthy to ≡ true)
    × (is_some (parse_date from) ≡ true)
    × (is_some (parse_date to) ≡ true)

truthy-append : (s t : String) → truthy s ≡ true → truthy (append s t) ≡ true
unfolding append
truthy-append [] t h = cc
truthy-append (c ∷ s) t h = refl

module _ (parse_date : String → Option ℤ) where
  parse_custom-key :
      (f t : String)
      → IsReadable parse_date (custom f t)
      → parse_custom parse_date (append f (append ".." t)) ≡ some (custom f t)
  unfolding parse_custom custom_of
  parse_custom-key f t (sf, st, tf, t2, pf, pt) =
      rw
        (
          other_parts-key f t sf,
          parse_custom,
          first_part-key f t sf,
          first_part-safe t st,
          tf,
          t2,
          pf,
          pt,
        )
        refl

  custom_case :
      (f t : String)
      → IsReadable parse_date (custom f t)
      → parse_time_range parse_date (some (append f (append ".." t))) ≡ some (custom f t)
  unfolding parse_time_range parse_or
  custom_case f t (sf, st, tf, t2, pf, pt) =
      let raw = append f (append ".." t) in
      rw (truthy-append f (append ".." t) tf, read_preset-parts raw t (other_parts-key f t sf))
        (parse_custom-key f t (sf, st, tf, t2, pf, pt))

  -- A preset, and a custom range whose ends are dates with neither adjacent dots nor a dot at the end,
  -- is read back from its key.
  pub parse_time_range-time_range_key :
      (v : TimeRangeValue)
      → IsReadable parse_date v
      → parse_time_range parse_date (some (time_range_key v)) ≡ some v
  unfolding parse_time_range parse_or time_range_key
  parse_time_range-time_range_key (preset one_hour) h = refl
  parse_time_range-time_range_key (preset one_day) h = refl
  parse_time_range-time_range_key (preset one_week) h = refl
  parse_time_range-time_range_key (preset one_month) h = refl
  parse_time_range-time_range_key (preset one_quarter) h = refl
  parse_time_range-time_range_key (custom f t) h = custom_case f t h
