-- ===== src/Hotkeys/Prefix.antt =====
-- Prefixes of step lists, and searches in the list of bindings.
use wai_ai.Common.{
  String, ◌≡◌, ◌↔◌, inl, inr, refl, Bool, true, false, none, some, List, [], ◌∷◌, ◌++◌, arith,
  eq_iff, eq_refl, eqb, length, any, find, Listed, Option-cases, Bool-cases,
}
use wai_ai.Hotkeys.{Candidate, exact, prefix, is_prefix, same_steps, longer_steps, try_match}

find-Listed :
    (p : Candidate → Bool) (cs : List Candidate) (c : Candidate)
    → find p cs ≡ some c
    → Listed c cs × (p c ≡ true)
find-Listed p [] c h = cc
find-Listed p (d ∷ ds) c h = ground (arith, find-Listed p ds c)

find-none :
    (p : Candidate → Bool) (cs : List Candidate) (c : Candidate)
    → find p cs ≡ none
    → Listed c cs
    → p c ≡ false
find-none p [] c h k = elim k [ ]
find-none p (d ∷ ds) c h k = ground (arith, find-none p ds c)

pub any-Listed :
    (p : Candidate → Bool) (cs : List Candidate)
    → any p cs ≡ true
    → (c : Candidate) × Listed c cs × (p c ≡ true)
any-Listed p [] h = cc
any-Listed p (d ∷ ds) h = elim (Bool-cases (p d)) [
  | inl e ↦ (d, inl refl, e)
  | inr e ↦ let (c, l, q) = any-Listed p ds (ground arith) in (c, inr l, q)
]

any_of_Listed :
    (p : Candidate → Bool) (cs : List Candidate) (c : Candidate)
    → Listed c cs
    → p c ≡ true
    → any p cs ≡ true
any_of_Listed p [] c h k = elim h [ ]
any_of_Listed p (d ∷ ds) c h k = ground (arith, any_of_Listed p ds c)

is_prefix-append : (xs zs : List String) → is_prefix xs (xs ++ zs) ≡ true
unfolding is_prefix
is_prefix-append [] zs = refl
is_prefix-append (x ∷ xs) zs = rw (eq_refl, is_prefix-append xs zs)

is_prefix-rest :
    (xs ys : List String) → is_prefix xs ys ≡ true → (zs : List String) × (ys ≡ xs ++ zs)
unfolding is_prefix
is_prefix-rest [] ys h = (ys, refl)
is_prefix-rest (x ∷ xs) [] h = cc
is_prefix-rest (x ∷ xs) (y ∷ ys) h =
    let same : x ≡ y = ground (arith, eq_iff x y) in
    let later : is_prefix xs ys ≡ true = ground arith in
    let (zs, e) = is_prefix-rest xs ys later in (zs, cc)

-- A list of steps is a prefix of another exactly when a rest completes it.
pub is_prefix_iff :
    (xs ys : List String) → (is_prefix xs ys ≡ true) ↔ ((zs : List String) × (ys ≡ xs ++ zs))
is_prefix_iff xs ys = (is_prefix-rest xs ys, λ w. rw w.1 (is_prefix-append xs w.0))

is_prefix-same :
    (xs ys : List String) → eqb (length xs) (length ys) ≡ true → is_prefix xs ys ≡ true → xs ≡ ys
unfolding is_prefix
is_prefix-same [] [] h k = refl
is_prefix-same [] (y ∷ ys) h k = absurd (ground arith)
is_prefix-same (x ∷ xs) [] h k = absurd (ground arith)
is_prefix-same (x ∷ xs) (y ∷ ys) h k = ground (arith, eq_iff x y, is_prefix-same xs ys)

is_prefix_refl : (xs : List String) → is_prefix xs xs ≡ true
unfolding is_prefix
is_prefix_refl [] = refl
is_prefix_refl (x ∷ xs) = rw (eq_refl, is_prefix_refl xs)

pub same_steps_iff :
    (seq : List String) (c : Candidate) → (same_steps seq c ≡ true) ↔ (c.steps ≡ seq)
same_steps_iff seq c = (
  (λ h. is_prefix-same c.steps seq (ground arith) (ground arith)),
  (λ e. rw (← e) (ground (arith, is_prefix_refl c.steps))),
)

-- What the match of a sequence says of the bindings.
pub try_match-exact :
    (cs : List Candidate) (seq : List String) (c : Candidate)
    → try_match cs seq ≡ exact c
    → Listed c cs × (c.steps ≡ seq)
unfolding try_match
try_match-exact cs seq c h = elim (Option-cases (find (same_steps seq) cs)) [
  | inl e ↦ ground arith
  | inr (d, e) ↦
      let found : d ≡ c = ground arith in
      ground (arith, find-Listed (same_steps seq) cs d e, same_steps_iff seq d)
]

pub try_match-prefix :
    (cs : List Candidate) (seq : List String)
    → try_match cs seq ≡ prefix
    → (c : Candidate) × Listed c cs × (longer_steps seq c ≡ true)
unfolding try_match
try_match-prefix cs seq h = any-Listed (longer_steps seq) cs (ground arith)

-- A sequence that a binding continues, and that is no binding's own, is a prefix.
pub try_match-waits :
    (cs : List Candidate) (seq : List String) (c : Candidate)
    → Listed c cs
    → longer_steps seq c ≡ true
    → ((d : Candidate) → Listed d cs → same_steps seq d ≡ false)
    → try_match cs seq ≡ prefix
unfolding try_match
try_match-waits cs seq c l longer none_same = elim (Option-cases (find (same_steps seq) cs)) [
  | inl e ↦ ground (arith, any_of_Listed (longer_steps seq) cs c l longer)
  | inr (d, e) ↦
      let (there, same) = find-Listed (same_steps seq) cs d e in
      absurd (ground (arith, none_same d there))
]

-- A binding with exactly these steps is found, or one before it with the same steps.
pub try_match-fires :
    (cs : List Candidate) (c : Candidate)
    → Listed c cs
    → (d : Candidate) × (try_match cs c.steps ≡ exact d) × (d.steps ≡ c.steps)
unfolding try_match
try_match-fires cs c l = elim (Option-cases (find (same_steps c.steps) cs)) [
  | inl e ↦
      absurd (ground (arith, find-none (same_steps c.steps) cs c e l, same_steps_iff c.steps c))
  | inr (d, e) ↦ (
    d,
    ground arith,
    ground (arith, find-Listed (same_steps c.steps) cs d e, same_steps_iff c.steps d),
  )
]
