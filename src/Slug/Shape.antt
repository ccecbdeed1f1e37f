-- ===== src/Slug/Shape.antt =====
-- The shape of a slug, and that a slug is its own slug.
use Prim.Native.Char.{Char, code}
use Prim.Native.String.{String, [], ◌∷◌}
use wai_ai.Common.{
  ◌≡◌, refl, ap, sym, ◌∙◌, Bool, true, false, not, ◌&&◌, arith, Bool-cases, inl, inr, ◌↔◌, subst,
  and_left, and_right, not-true,
}
use wai_ai.Common.Text.{is_space}
use wai_ai.Slug.{
  is_dash, is_allowed, starts_dash, dash_spaces, keep_allowed, squeeze, drop_start, drop_end,
  derive_slug,
}

-- Each character is a letter from a to z, a digit or a dash.
unfoldable pub all_allowed : String → Bool
all_allowed [] = true
all_allowed (c ∷ s) = is_allowed c && all_allowed s

-- No dash follows another.
unfoldable pub single : String → Bool
unfolding starts_dash
single [] = true
single (c ∷ s) = not (is_dash c && starts_dash s) && single s

unfoldable pub ends_dash : String → Bool
ends_dash [] = false
ends_dash (c ∷ []) = is_dash c
ends_dash (c ∷ d ∷ s) = ends_dash (d ∷ s)

abbrev pub IsSlug : String → Type 0
IsSlug s =
    (all_allowed s ≡ true) × (single s ≡ true) × (starts_dash s ≡ false) × (ends_dash s ≡ false)

keep_allowed-allowed : (s : String) → all_allowed (keep_allowed s) ≡ true
unfolding keep_allowed all_allowed
keep_allowed-allowed [] = refl
keep_allowed-allowed (c ∷ s) = elim (Bool-cases (is_allowed c)) [
  | inl e ↦ rw (e, all_allowed, e) (keep_allowed-allowed s)
  | inr e ↦ rw e (keep_allowed-allowed s)
]

squeeze-allowed : (s : String) → all_allowed s ≡ true → all_allowed (squeeze s) ≡ true
unfolding squeeze all_allowed
squeeze-allowed [] h = refl
squeeze-allowed (c ∷ s) h =
    let tail = squeeze-allowed s (and_right (is_allowed c) _ h) in
    elim (Bool-cases (is_dash c && starts_dash s)) [
      | inl e ↦ rw e tail
      | inr e ↦ rw (e, all_allowed, and_left _ (all_allowed s) h) tail
    ]

starts_dash-squeeze : (s : String) → starts_dash (squeeze s) ≡ starts_dash s
unfolding squeeze starts_dash
starts_dash-squeeze [] = refl
starts_dash-squeeze (c ∷ s) = elim (Bool-cases (is_dash c && starts_dash s)) [
  | inl e ↦
      rw e (starts_dash-squeeze s ∙ and_right (is_dash c) _ e ∙ sym (and_left _ (starts_dash s) e))
  | inr e ↦ rw e refl
]

squeeze-single : (s : String) → single (squeeze s) ≡ true
unfolding squeeze single
squeeze-single [] = refl
squeeze-single (c ∷ s) = elim (Bool-cases (is_dash c && starts_dash s)) [
  | inl e ↦ rw e (squeeze-single s)
  | inr e ↦ rw (e, single, starts_dash-squeeze s, e) (squeeze-single s)
]

drop_start-allowed : (s : String) → all_allowed s ≡ true → all_allowed (drop_start s) ≡ true
unfolding drop_start all_allowed
drop_start-allowed [] h = refl
drop_start-allowed (c ∷ s) h = elim (Bool-cases (is_dash c)) [
  | inl e ↦ rw e (and_right (is_allowed c) _ h)
  | inr e ↦ rw (e, all_allowed) h
]

drop_start-single : (s : String) → single s ≡ true → single (drop_start s) ≡ true
unfolding drop_start single
drop_start-single [] h = refl
drop_start-single (c ∷ s) h = elim (Bool-cases (is_dash c)) [
  | inl e ↦ rw e (and_right (not (is_dash c && starts_dash s)) _ h)
  | inr e ↦ rw (e, single, e) (and_right (not (is_dash c && starts_dash s)) _ h)
]

after_dash :
    (c : Char) (s : String) → single (c ∷ s) ≡ true → is_dash c ≡ true → starts_dash s ≡ false
unfolding single
after_dash c s h e = ap (λ b. b && starts_dash s) (sym e) ∙ not-true _ (and_left _ (single s) h)

starts_dash-drop_start : (s : String) → single s ≡ true → starts_dash (drop_start s) ≡ false
unfolding drop_start starts_dash
starts_dash-drop_start [] h = refl
starts_dash-drop_start (c ∷ s) h = elim (Bool-cases (is_dash c)) [
  | inl e ↦ rw e (after_dash c s h e)
  | inr e ↦ rw (e, starts_dash) e
]

drop_end-allowed : (s : String) → all_allowed s ≡ true → all_allowed (drop_end s) ≡ true
unfolding drop_end all_allowed
drop_end-allowed [] h = refl
drop_end-allowed (c ∷ []) h = elim (Bool-cases (is_dash c)) [
  | inl e ↦ rw e refl
  | inr e ↦ rw (e, all_allowed) h
]
drop_end-allowed (c ∷ d ∷ s) h =
    rw (and_left (is_allowed c) _ h) (drop_end-allowed (d ∷ s) (and_right (is_allowed c) _ h))

-- A text that starts with no dash does so without its last dash too.
starts_dash-drop_end : (s : String) → starts_dash s ≡ false → starts_dash (drop_end s) ≡ false
unfolding drop_end starts_dash
starts_dash-drop_end [] h = refl
starts_dash-drop_end (c ∷ []) h = rw (h, starts_dash) h
starts_dash-drop_end (c ∷ d ∷ s) h = h

drop_end-single : (s : String) → single s ≡ true → single (drop_end s) ≡ true
unfolding drop_end single
drop_end-single [] h = refl
drop_end-single (c ∷ []) h = elim (Bool-cases (is_dash c)) [
  | inl e ↦ rw e refl
  | inr e ↦ rw (e, single, e) refl
]
drop_end-single (c ∷ d ∷ s) h = elim (Bool-cases (is_dash c)) [
  | inl e ↦
      rw (e, starts_dash-drop_end (d ∷ s) (after_dash c (d ∷ s) h e))
        (drop_end-single (d ∷ s) (and_right (not (is_dash c && starts_dash (d ∷ s))) _ h))
  | inr e ↦ rw e (drop_end-single (d ∷ s) (and_right (not (is_dash c && starts_dash (d ∷ s))) _ h))
]

first_not : (c d : Char) → single (c ∷ d ∷ []) ≡ true → is_dash d ≡ true → is_dash c ≡ false
unfolding starts_dash
first_not c d h e = elim (Bool-cases (is_dash c)) [
  | inl e' ↦ e' ∙ sym (sym (after_dash c (d ∷ []) h e') ∙ e)
  | inr e' ↦ e'
]

ends_dash-drop_end : (s : String) → single s ≡ true → ends_dash (drop_end s) ≡ false
unfolding drop_end single ends_dash
ends_dash-drop_end [] h = refl
ends_dash-drop_end (c ∷ []) h = elim (Bool-cases (is_dash c)) [
  | inl e ↦ rw (e, ends_dash) refl
  | inr e ↦ rw (e, ends_dash) e
]
ends_dash-drop_end (c ∷ d ∷ []) h = elim (Bool-cases (is_dash d)) [
  | inl e ↦ rw (e, ends_dash) (first_not c d h e)
  | inr e ↦ rw (e, ends_dash) e
]
ends_dash-drop_end (c ∷ d ∷ e ∷ s) h =
    ends_dash-drop_end (d ∷ e ∷ s) (and_right (not (is_dash c && is_dash d)) _ h)

allowed_ink : (c : Char) → is_allowed c ≡ true → is_space (code c) ≡ false
unfolding is_allowed is_space
allowed_ink c h = ground arith

dash_spaces-allowed : (s : String) → all_allowed s ≡ true → dash_spaces s ≡ s
unfolding dash_spaces all_allowed
dash_spaces-allowed [] h = refl
dash_spaces-allowed (c ∷ s) h =
    rw (allowed_ink c (and_left _ (all_allowed s) h))
      (ap (◌∷◌ c) (dash_spaces-allowed s (and_right (is_allowed c) _ h)))

keep_allowed-same : (s : String) → all_allowed s ≡ true → keep_allowed s ≡ s
unfolding keep_allowed all_allowed
keep_allowed-same [] h = refl
keep_allowed-same (c ∷ s) h =
    rw (and_left _ (all_allowed s) h)
      (ap (◌∷◌ c) (keep_allowed-same s (and_right (is_allowed c) _ h)))

squeeze-same : (s : String) → single s ≡ true → squeeze s ≡ s
unfolding squeeze single
squeeze-same [] h = refl
squeeze-same (c ∷ s) h =
    rw (not-true _ (and_left _ (single s) h))
      (ap (◌∷◌ c) (squeeze-same s (and_right (not (is_dash c && starts_dash s)) _ h)))

drop_start-same : (s : String) → starts_dash s ≡ false → drop_start s ≡ s
unfolding drop_start starts_dash
drop_start-same [] h = refl
drop_start-same (c ∷ s) h = rw h refl

drop_end-same : (s : String) → ends_dash s ≡ false → drop_end s ≡ s
unfolding drop_end ends_dash
drop_end-same [] h = refl
drop_end-same (c ∷ []) h = rw h refl
drop_end-same (c ∷ d ∷ s) h = ap (◌∷◌ c) (drop_end-same (d ∷ s) h)

module _ (lower : String → String) where
  derive_slug-IsSlug : (name : String) → IsSlug (derive_slug lower name)
  unfolding derive_slug
  derive_slug-IsSlug name =
      let kept = keep_allowed (dash_spaces (lower name)) in
      let a = squeeze-allowed kept (keep_allowed-allowed (dash_spaces (lower name))) in
      let h = squeeze-single kept in
      let cut = drop_start (squeeze kept) in
      let h' = drop_start-single (squeeze kept) h in
      (
        drop_end-allowed cut (drop_start-allowed (squeeze kept) a),
        drop_end-single cut h',
        starts_dash-drop_end cut (starts_dash-drop_start (squeeze kept) h),
        ends_dash-drop_end cut h',
      )

  derive_slug-same : (s : String) → lower s ≡ s → IsSlug s → derive_slug lower s ≡ s
  unfolding derive_slug
  derive_slug-same s low (a, h, f, l) =
      rw
        (low, dash_spaces-allowed s a, keep_allowed-same s a, squeeze-same s h, drop_start-same s f)
        (drop_end-same s l)

  -- The slug of any name consists of the letters a to z, digits and dashes, with no dash at its start, at
  -- its end or next to another; and if lower case keeps such texts as they are, they are the texts that
  -- are their own slugs.
  pub derive_slug_iff :
      (name : String)
      → ((s : String) → IsSlug s → lower s ≡ s)
      → IsSlug (derive_slug lower name) × ((derive_slug lower name ≡ name) ↔ IsSlug name)
  derive_slug_iff name keeps =
      let shaped = derive_slug-IsSlug name in
      (shaped, ((λ e. subst IsSlug e shaped), (λ s. derive_slug-same name (keeps name s) s)))
