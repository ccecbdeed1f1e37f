-- ===== src/Compare/Columns/Ids.antt =====
-- Lists of columns whose ids are different and were given before.
use Prim.Native.String.{String, ◌∷◌}
use wai_ai.Common.{
  ℕ, zero, suc, ◌≤◌, ◌<◌, ◌≡◌, ◌≢◌, refl, sym, ap, subst, ◌∙◌, Bool, true, false, not, Option, none,
  some, List, ◌++◌, map, filter, take, drop, length, length-append, length-take, length-drop,
  length-filter, Option-cases, All, All-append, All-take, All-drop, All-filter, either_way, arith,
  Bool-cases, inl, inr, if◌then◌else◌, eq_iff, eq_refl, ◌==◌, ltb, leb,
}
use wai_ai.Common.Decimal.{read_digits}
use wai_ai.Common.Decimal.RoundTrip.{read_digits-prefix}
use wai_ai.Compare.{
  Column, Compare, Patch, set_model, set_temperature, set_max_tokens, set_params_open, column_id,
  patched,
}

-- The sequence number in an id.
pub number_of : String → ℕ
number_of (a ∷ b ∷ c ∷ d ∷ s) = read_digits 0 s
number_of _ = 0

pub number_of-column_id : (n : ℕ) (random : String) → number_of (column_id n random) ≡ n
unfolding number_of column_id wai_ai.Common.Text.append
number_of-column_id n random = read_digits-prefix n "-" random refl

module _ {Num : Type 0} where
  abbrev pub IsOld : ℕ → Column Num → Type 0
  IsOld seq c = number_of c.id ≤ seq

  -- No two columns have the same id.
  abbrev pub HasDistinctIds : List (Column Num) → Type 0
  HasDistinctIds List.[] = Unit
  HasDistinctIds (List.◌∷◌ c cs) = All (λ d. d.id ≢ c.id) cs × HasDistinctIds cs

  pub older : (seq : ℕ) (cs : List (Column Num)) → All (IsOld seq) cs → All (IsOld (suc seq)) cs
  older seq List.[] h = tt
  older seq (List.◌∷◌ c cs) (p, h) = (omega arith, older seq cs h)

  -- A new id is none of the old ones.
  pub new_id :
      (seq : ℕ) (random : String) (cs : List (Column Num))
      → All (IsOld seq) cs
      → All (λ d. d.id ≢ column_id (suc seq) random) cs
  new_id seq random List.[] h = tt
  new_id seq random (List.◌∷◌ c cs) (p, h) = (
    (λ e. absurd (omega (arith, ap number_of e, number_of-column_id (suc seq) random))),
    new_id seq random cs h,
  )

  -- A change that keeps the ids keeps what is said of them.
  map-Fresh :
      (f : Column Num → Column Num) (same : (c : Column Num) → (f c).id ≡ c.id) (id : String)
      (cs : List (Column Num))
      → All (λ d. d.id ≢ id) cs
      → All (λ d. d.id ≢ id) (map f cs)
  map-Fresh f same id List.[] h = tt
  map-Fresh f same id (List.◌∷◌ c cs) (p, h) =
      ((λ e. p (sym (same c) ∙ e)), map-Fresh f same id cs h)

  pub map-HasDistinctIds :
      (f : Column Num → Column Num) (same : (c : Column Num) → (f c).id ≡ c.id)
      (cs : List (Column Num))
      → HasDistinctIds cs
      → HasDistinctIds (map f cs)
  map-HasDistinctIds f same List.[] h = tt
  map-HasDistinctIds f same (List.◌∷◌ c cs) (p, h) = (
    subst (λ id. All (λ d. d.id ≢ id) (map f cs)) (sym (same c)) (map-Fresh f same c.id cs p),
    map-HasDistinctIds f same cs h,
  )

  pub map-IsOld :
      (f : Column Num → Column Num) (same : (c : Column Num) → (f c).id ≡ c.id) (seq : ℕ)
      (cs : List (Column Num))
      → All (IsOld seq) cs
      → All (IsOld seq) (map f cs)
  map-IsOld f same seq List.[] h = tt
  map-IsOld f same seq (List.◌∷◌ c cs) (p, h) =
      (omega (arith, ap number_of (same c)), map-IsOld f same seq cs h)

  pub length-map :
      (f : Column Num → Column Num) (cs : List (Column Num)) → length (map f cs) ≡ length cs
  length-map f List.[] = refl
  length-map f (List.◌∷◌ c cs) = ap suc (length-map f cs)

  -- A column with a new id may be put anywhere.
  pub put-HasDistinctIds :
      (i : ℕ) (c : Column Num) (cs : List (Column Num))
      → All (λ d. d.id ≢ c.id) cs
      → HasDistinctIds cs
      → HasDistinctIds (take i cs ++ List.◌∷◌ c (drop i cs))
  put-HasDistinctIds zero c cs new h = (new, h)
  put-HasDistinctIds (suc i) c List.[] new h = (tt, tt)
  put-HasDistinctIds (suc i) c (List.◌∷◌ d ds) (n, new) (p, h) = (
    All-append (λ x. x.id ≢ d.id) (take i ds) (List.◌∷◌ c (drop i ds))
        (All-take (λ x. x.id ≢ d.id) i ds p) ((λ e. n (sym e)), All-drop (λ x. x.id ≢ d.id) i ds p),
    put-HasDistinctIds i c ds new h,
  )

  pub put-IsOld :
      (seq i : ℕ) (c : Column Num) (cs : List (Column Num))
      → IsOld seq c
      → All (IsOld seq) cs
      → All (IsOld seq) (take i cs ++ List.◌∷◌ c (drop i cs))
  put-IsOld seq i c cs p h =
      All-append (IsOld seq) (take i cs) (List.◌∷◌ c (drop i cs)) (All-take (IsOld seq) i cs h)
        (p, All-drop (IsOld seq) i cs h)

  pub length-put :
      (i : ℕ) (c : Column Num) (cs : List (Column Num))
      → length (take i cs ++ List.◌∷◌ c (drop i cs)) ≡ suc (length cs)
  length-put zero c cs = refl
  length-put (suc i) c List.[] = refl
  length-put (suc i) c (List.◌∷◌ d ds) = ap suc (length-put i c ds)

  pub append-HasDistinctIds :
      (c : Column Num) (cs : List (Column Num))
      → All (λ d. d.id ≢ c.id) cs
      → HasDistinctIds cs
      → HasDistinctIds (cs ++ List.◌∷◌ c List.[])
  append-HasDistinctIds c List.[] new h = (tt, tt)
  append-HasDistinctIds c (List.◌∷◌ d ds) (n, new) (p, h) = (
    All-append (λ x. x.id ≢ d.id) ds (List.◌∷◌ c List.[]) p ((λ e. n (sym e)), tt),
    append-HasDistinctIds c ds new h,
  )

  -- `cols.filter((c) => c.id !== id)`
  abbrev others : String → List (Column Num) → List (Column Num)
  others id cs = filter (λ c. not (c.id == id)) cs

  pub others-HasDistinctIds :
      (id : String) (cs : List (Column Num)) → HasDistinctIds cs → HasDistinctIds (others id cs)
  others-HasDistinctIds id List.[] h = tt
  others-HasDistinctIds id (List.◌∷◌ c cs) (p, h) = elim (Bool-cases (not (c.id == id))) [
    | inl e ↦
        rw e (
          All-filter (λ d. d.id ≢ c.id) (λ d. not (d.id == id)) cs p,
          others-HasDistinctIds id cs h,
        )
    | inr e ↦ rw e (others-HasDistinctIds id cs h)
  ]

  others-of_fresh :
      (id : String) (cs : List (Column Num)) → All (λ d. d.id ≢ id) cs → others id cs ≡ cs
  others-of_fresh id List.[] h = refl
  others-of_fresh id (List.◌∷◌ c cs) (p, h) =
      ground (arith, eq_iff c.id id, others-of_fresh id cs h)

  -- At most one column has an id, so that at most one goes.
  pub length-others :
      (id : String) (cs : List (Column Num))
      → HasDistinctIds cs
      → length cs ≤ suc (length (others id cs))
  length-others id List.[] h = omega arith
  length-others id (List.◌∷◌ c cs) (p, h) = elim (Bool-cases (c.id == id)) [
    | inl e ↦ rw e (
        omega (
          arith,
          ap length (
              others-of_fresh id cs (subst (λ x. All (λ d. d.id ≢ x) cs) ((eq_iff c.id id).0 e) p)),
        ))
    | inr e ↦ rw e (omega (arith, length-others id cs h))
  ]

  patched-same : (q : Patch Num) (c : Column Num) → (patched q c).id ≡ c.id
  unfolding patched
  patched-same (set_model m) c = refl
  patched-same (set_temperature t) c = refl
  patched-same (set_max_tokens n) c = refl
  patched-same (set_params_open o) c = refl

  pub patch-same :
      (id : String) (q : Patch Num) (c : Column Num)
      → (if c.id == id then patched q c else c).id ≡ c.id
  patch-same id q c =
      either_way (λ d. d.id ≡ c.id) (c.id == id) (patched q c) c (patched-same q c) refl

  -- Two to four columns, each with an id of its own that was given before.
  pub record IsWhole (s : Compare Num) : Type 0 where
    pub least : 2 ≤ length s.columns
    pub most : length s.columns ≤ 4
    pub distinct : HasDistinctIds s.columns
    pub old : All (IsOld s.column_seq) s.columns
