-- ===== src/Logs/Shown.antt =====
-- The rows of the request log: those of the live tail above those that were loaded.
use wai_ai.Common.{
  zero, ◌≤◌, ◌+◌, suc, ◌≡◌, ◌⊎◌, inl, inr, refl, sym, subst, ℕ, String, Bool, true, false, List, [],
  ◌∷◌, ◌++◌, map, length, length-append, take, ltb, length-take, member, member_iff, Listed,
  AllDistinct, arith, Bool-cases, if◌then◌else◌, either_way,
}
use wai_ai.LiveTail.{Row, max_rows}
use wai_ai.Logs.{dedupe_from, shown_rows}

abbrev pub ids : List Row → List String
ids rows = map (λ r. r.id) rows

skipped_or_kept :
    (b : Bool) (id : String) (r : Row) (xs ys : List Row)
    → Listed id (ids (if b then xs else r ∷ ys))
    → Listed id (ids xs) ⊎ ((b ≡ false) × ((id ≡ r.id) ⊎ Listed id (ids ys)))
skipped_or_kept true id r xs ys h = inl h
skipped_or_kept false id r xs ys h = inr (refl, h)

dedupe-fresh :
    (seen : List String) (rs : List Row) (id : String)
    → Listed id (ids (dedupe_from seen rs))
    → Listed id seen
    → ⊥
unfolding dedupe_from
dedupe-fresh seen [] id h at = h
dedupe-fresh seen (r ∷ rs) id h at =
    elim (skipped_or_kept (member r.id seen) id r (dedupe_from seen rs) _ h) [
      | inl later ↦ dedupe-fresh seen rs id later at
      | inr (e, inl q) ↦ both e ((member_iff r.id seen).1 (subst (λ x. Listed x seen) q at))
      | inr (e, inr later) ↦ dedupe-fresh (r.id ∷ seen) rs id later (inr at)
    ]
  where
    both : {b : Bool} → b ≡ false → b ≡ true → ⊥
    both x y = cc

dedupe-AllDistinct : (seen : List String) (rs : List Row) → AllDistinct (ids (dedupe_from seen rs))
unfolding dedupe_from
dedupe-AllDistinct seen [] = tt
dedupe-AllDistinct seen (r ∷ rs) = elim (Bool-cases (member r.id seen)) [
  | inl e ↦ rw e (dedupe-AllDistinct seen rs)
  | inr e ↦
      rw e (
        (λ h. dedupe-fresh (r.id ∷ seen) rs r.id h (inl refl)),
        dedupe-AllDistinct (r.id ∷ seen) rs,
      )
]

-- Each id is kept, unless it was seen before.
dedupe_complete :
    (seen : List String) (rs : List Row) (id : String)
    → Listed id (ids rs)
    → Listed id (ids (dedupe_from seen rs)) ⊎ Listed id seen
unfolding dedupe_from
dedupe_complete seen [] id h = absurd h
dedupe_complete seen (r ∷ rs) id h = elim (Bool-cases (member r.id seen)) [
  | inl e ↦ rw e (old e (dedupe_complete seen rs id) h)
  | inr e ↦ rw e (new (dedupe_complete (r.id ∷ seen) rs id) h)
]
  where
    old :
        member r.id seen ≡ true
        → (Listed id (ids rs) → Listed id (ids (dedupe_from seen rs)) ⊎ Listed id seen)
        → Listed id (ids (r ∷ rs))
        → Listed id (ids (dedupe_from seen rs)) ⊎ Listed id seen
    old e rest (inl q) = inr (subst (λ x. Listed x seen) (sym q) ((member_iff r.id seen).0 e))
    old e rest (inr later) = rest later

    new :
        (Listed id (ids rs)
          → Listed id (ids (dedupe_from (r.id ∷ seen) rs)) ⊎ Listed id (r.id ∷ seen))
        → Listed id (ids (r ∷ rs))
        → Listed id (ids (r ∷ dedupe_from (r.id ∷ seen) rs)) ⊎ Listed id seen
    new rest (inl q) = inl (inl q)
    new rest (inr later) = elim (rest later) [
      | inl q ↦ inl (inr q)
      | inr (inl q) ↦ inl (inl q)
      | inr (inr q) ↦ inr q
    ]

length-dedupe : (seen : List String) (rs : List Row) → length (dedupe_from seen rs) ≤ length rs
unfolding dedupe_from
length-dedupe seen [] = omega arith
length-dedupe seen (r ∷ rs) = elim (Bool-cases (member r.id seen)) [
  | inl e ↦ rw e (omega (arith, length-dedupe seen rs))
  | inr e ↦ rw e (omega (arith, length-dedupe (r.id ∷ seen) rs))
]

Listed-take :
    (n : ℕ) (rs : List Row) (id : String) → Listed id (ids (take n rs)) → Listed id (ids rs)
Listed-take zero rs id h = absurd h
Listed-take (suc n) [] id h = h
Listed-take (suc n) (r ∷ rs) id (inl e) = inl e
Listed-take (suc n) (r ∷ rs) id (inr h) = inr (Listed-take n rs id h)

take-AllDistinct : (n : ℕ) (rs : List Row) → AllDistinct (ids rs) → AllDistinct (ids (take n rs))
take-AllDistinct zero rs h = tt
take-AllDistinct (suc n) [] h = tt
take-AllDistinct (suc n) (r ∷ rs) (fresh, h) =
    ((λ q. fresh (Listed-take n rs r.id q)), take-AllDistinct n rs h)

abbrev cut : ℕ → List Row → List Row
cut n rs = if ltb n (length rs) then take n rs else rs

length-cut : (n : ℕ) (rs : List Row) → length (cut n rs) ≤ n
length-cut n rs = elim (Bool-cases (ltb n (length rs))) [
  | inl e ↦ rw e (omega (arith, length-take n rs))
  | inr e ↦ rw e (within e)
]
  where
    within : ltb n (length rs) ≡ false → length rs ≤ n
    within h = ground arith

cut-AllDistinct : (n : ℕ) (rs : List Row) → AllDistinct (ids rs) → AllDistinct (ids (cut n rs))
cut-AllDistinct n rs h =
    either_way (λ xs. AllDistinct (ids xs)) (ltb n (length rs)) _ _ (take-AllDistinct n rs h) h

cut_all : (n : ℕ) (rs : List Row) → length rs ≤ n → cut n rs ≡ rs
cut_all n rs h = ground arith

-- At most 2000 rows are shown, no two of one id; and each row of the live tail and each loaded row is
-- shown, or another of its id, if they are at most 2000 together.
pub shown_rows_lem :
    (tail_rows paged : List Row)
    → AllDistinct (ids (shown_rows tail_rows paged))
      × (length (shown_rows tail_rows paged) ≤ 2000)
      × (length tail_rows + length paged ≤ 2000
          → (id : String) → Listed id (ids (tail_rows ++ paged))
          → Listed id (ids (shown_rows tail_rows paged)))
unfolding shown_rows
shown_rows_lem tail_rows paged =
    let all_rows = tail_rows ++ paged in
    let kept = dedupe_from [] all_rows in
    (
      cut-AllDistinct max_rows kept (dedupe-AllDistinct [] all_rows),
      length-cut max_rows kept,
      (λ few id at. elim (dedupe_complete [] all_rows id at) [
        | inl h ↦
            subst (λ rs. Listed id (ids rs))
              (sym (
                cut_all max_rows kept
                  (omega (arith, few, length-dedupe [] all_rows, length-append tail_rows paged))))
              h
        | inr h ↦ absurd h
      ]),
    )
