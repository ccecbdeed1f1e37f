-- ===== src/Compare/Best.antt =====
-- ui/src/pages/playground/metrics.ts: the one column whose figure is the best (`bestIndex`). `lt` is the
-- order of the figures, of which the code takes the numbers' own.
use wai_ai.Common.{
  ℕ, zero, suc, ◌+◌, subst, ◌≤◌, ◌<◌, ◌≡◌, ◌≢◌, ◌↔◌, refl, sym, ap, ◌∙◌, Bool, true, false, not,
  ◌&&◌, Option, none, some, List, [], ◌∷◌, filter, length, Listed, Listed-filter, of_Listed, ltb→lt,
  All, ltb, arith, Bool-cases, inl, inr, if◌then◌else◌,
}
use native.Mathlib.Decide.{ℕ_discrete}
use wai_ai.Common.Sort.{IsStrictOrder}
use wai_ai.Controls.Segmented.{nth}

module _ {Num : Type 0} where
  -- The figures that are defined, each with its position, from the position `i` on.
  unfoldable pub defined_from : ℕ → List (Option Num) → List (Num × ℕ)
  defined_from i [] = []
  defined_from i (none ∷ vs) = defined_from (suc i) vs
  defined_from i (some v ∷ vs) = (v, i) ∷ defined_from (suc i) vs

module _ {Num : Type 0} (lt : Num → Num → Bool) where
  -- `Math.min(…)` of a figure and those after it
  unfoldable pub least : Num → List (Num × ℕ) → Num
  least v [] = v
  least v ((w, i) ∷ rest) = least (if lt w v then w else v) rest

  -- `v === min`: neither is less.
  abbrev pub same_figure : Num → Num → Bool
  same_figure v w = not (lt v w) && not (lt w v)

  unfoldable pub single_winner : List (Num × ℕ) → Option ℕ
  single_winner ((v, i) ∷ []) = some i
  single_winner _ = none

  unfoldable pub best_of : List (Num × ℕ) → Option ℕ
  unfolding least single_winner
  best_of [] = none
  best_of ((v, i) ∷ rest) =
      let min = least v rest in
      if ltb (length ((v, i) ∷ rest)) 2
      then none
      else single_winner (filter (λ e. same_figure e.0 min) ((v, i) ∷ rest))

  -- `bestIndex`
  unfoldable pub best_index : List (Option Num) → Option ℕ
  unfolding defined_from best_of
  best_index values = best_of (defined_from 0 values)

  -- A figure of the list that none of the list is below.
  abbrev IsLeast : Num → List (Num × ℕ) → Type 0
  IsLeast m xs = All (λ e. lt e.0 m ≡ false) xs × ((j : ℕ) × Listed (m, j) xs)

  -- A figure at the position `i` that is better than every other one, of at least two.
  abbrev pub Wins : ℕ → List (Option Num) → Type 0
  Wins i values =
      (v : Num) × (nth i values ≡ some (some v))
      × ((j : ℕ) (w : Num) → nth j values ≡ some (some w) → j ≢ i → lt v w ≡ true)
      × (2 ≤ length (defined_from 0 values))

  module _ (order : IsStrictOrder lt) where
    irreflexive : (v : Num) → lt v v ≡ false
    irreflexive v = elim (Bool-cases (lt v v)) [ inl e ↦ order.asym v v e | inr e ↦ e ]

    behind :
        (x a b : Num × ℕ) (rest : List (Num × ℕ)) → Listed x (a ∷ rest) → Listed x (a ∷ b ∷ rest)
    behind x a b rest (inl e) = inl e
    behind x a b rest (inr h) = inr (inr h)

    same_figure_refl : (v : Num) → same_figure v v ≡ true
    same_figure_refl v = ground (arith, irreflexive v)

    same_of : (v w : Num) → lt v w ≡ false → lt w v ≡ false → same_figure v w ≡ true
    same_of v w h k = ground arith

    not_same : (v w : Num) → lt v w ≡ true → same_figure w v ≡ false
    not_same v w h = ground arith

    least-IsLeast :
        (v : Num) (i : ℕ) (rest : List (Num × ℕ)) → IsLeast (least v rest) ((v, i) ∷ rest)
    unfolding least
    least-IsLeast v i [] = ((irreflexive v, tt), (i, inl refl))
    least-IsLeast v i ((w, j) ∷ rest) = elim (Bool-cases (lt w v)) [
      | inl e ↦
          let ((head, tail), (k, found)) = least-IsLeast w j rest in
          let q : least v ((w, j) ∷ rest) ≡ least w rest = rw (e, least) refl in
          subst (λ m. IsLeast m ((v, i) ∷ (w, j) ∷ rest)) (sym q)
            (
              (order.neg_trans v w (least w rest) (order.asym w v e) head, (head, tail)),
              (k, inr found),
            )
      | inr e ↦
          let ((head, tail), (k, found)) = least-IsLeast v i rest in
          let q : least v ((w, j) ∷ rest) ≡ least v rest = rw (e, least) refl in
          subst (λ m. IsLeast m ((v, i) ∷ (w, j) ∷ rest)) (sym q)
            (
              (head, (order.neg_trans w v (least v rest) e head, tail)),
              (k, behind (least v rest, k) (v, i) (w, j) rest found),
            )
    ]

    not_below : (n : ℕ) → ltb (suc (suc n)) 2 ≡ false
    not_below n = ground arith

    best_of_run :
        (xs : List (Num × ℕ))
        → 2 ≤ length xs
        → (m : Num) × IsLeast m xs
          × (best_of xs ≡ single_winner (filter (λ e. same_figure e.0 m) xs))
    unfolding best_of
    best_of_run [] h = absurd (omega arith)
    best_of_run ((v, i) ∷ []) h = absurd (omega arith)
    best_of_run ((v, i) ∷ e ∷ rest) h =
        (least v (e ∷ rest), least-IsLeast v i (e ∷ rest), rw (not_below (length rest)) refl)

    best_of_short : (xs : List (Num × ℕ)) → length xs < 2 → best_of xs ≡ none
    unfolding best_of
    best_of_short [] h = refl
    best_of_short ((v, i) ∷ []) h = refl
    best_of_short ((v, i) ∷ e ∷ rest) h = absurd (omega arith)

    filter-none :
        (v : Num) (k : ℕ) (vs : List (Option Num))
        → ((j : ℕ) (w : Num) → nth j vs ≡ some (some w) → lt v w ≡ true)
        → filter (λ e. same_figure e.0 v) (defined_from k vs) ≡ []
    unfolding defined_from nth
    filter-none v k [] worse = refl
    filter-none v k (none ∷ vs) worse = filter-none v (suc k) vs (λ j w e. worse (suc j) w e)
    filter-none v k (some w ∷ vs) worse =
        rw (not_same v w (worse 0 w refl)) (filter-none v (suc k) vs (λ j x e. worse (suc j) x e))

    filter-winner :
        (v : Num) (i k : ℕ) (vs : List (Option Num))
        → nth i vs ≡ some (some v)
        → ((j : ℕ) (w : Num) → nth j vs ≡ some (some w) → j ≢ i → lt v w ≡ true)
        → filter (λ e. same_figure e.0 v) (defined_from k vs) ≡ (v, k + i) ∷ []
    unfolding defined_from nth
    filter-winner v i k [] at worse = cc
    filter-winner v zero k (none ∷ vs) at worse = cc
    filter-winner v zero k (some w ∷ vs) at worse =
        let w_is_v : w ≡ v = cc in
        rw (w_is_v, same_figure_refl v)
          (ap (λ rest. (v, k) ∷ rest)
              (filter-none v (suc k) vs
                (λ j x e. worse (suc j) x e (λ q. absurd (omega (arith, q)))))
            ∙ ap (λ n. (v, n) ∷ []) (omega arith))
    filter-winner v (suc i) k (none ∷ vs) at worse =
        filter-winner v i (suc k) vs at (λ j x e ne. worse (suc j) x e (λ q. ne (omega (arith, q))))
        ∙ ap (λ n. (v, n) ∷ []) (omega arith)
    filter-winner v (suc i) k (some w ∷ vs) at worse =
        rw (not_same v w (worse 0 w refl (λ q. absurd (omega (arith, q))))) (
          filter-winner v i (suc k) vs at
            (λ j x e ne. worse (suc j) x e (λ q. ne (omega (arith, q))))
          ∙ ap (λ n. (v, n) ∷ []) (omega arith))

    winner_of :
        (xs : List (Num × ℕ)) (i : ℕ) → single_winner xs ≡ some i → (v : Num) × (xs ≡ (v, i) ∷ [])
    unfolding single_winner
    winner_of [] i h = cc
    winner_of ((v, j) ∷ []) i h = (v, ground arith)
    winner_of (x ∷ y ∷ rest) i h = cc

    Listed-defined_from :
        (k : ℕ) (vs : List (Option Num)) (j : ℕ) (v : Num)
        → nth j vs ≡ some (some v)
        → Listed (v, k + j) (defined_from k vs)
    unfolding defined_from nth
    Listed-defined_from k [] j v h = cc
    Listed-defined_from k (none ∷ vs) zero v h = cc
    Listed-defined_from k (some w ∷ vs) zero v h = inl (ground arith)
    Listed-defined_from k (none ∷ vs) (suc j) v h =
        subst (λ n. Listed (v, n) (defined_from (suc k) vs)) (omega arith)
          (Listed-defined_from (suc k) vs j v h)
    Listed-defined_from k (some w ∷ vs) (suc j) v h = inr (
        subst (λ n. Listed (v, n) (defined_from (suc k) vs)) (omega arith)
          (Listed-defined_from (suc k) vs j v h))

    nth-defined_from :
        (k : ℕ) (vs : List (Option Num)) (m : ℕ) (v : Num)
        → Listed (v, m) (defined_from k vs)
        → (j : ℕ) × (m ≡ k + j) × (nth j vs ≡ some (some v))
    unfolding defined_from nth
    nth-defined_from k [] m v h = absurd h
    nth-defined_from k (none ∷ vs) m v h =
        let (j, e, at) = nth-defined_from (suc k) vs m v h in (suc j, omega (arith, e), at)
    nth-defined_from k (some w ∷ vs) m v (inl e) = (
      0,
      omega (arith, ap (λ (p : Num × ℕ). p.1) e),
      ap (λ (p : Num × ℕ). some (some p.0)) (sym e),
    )
    nth-defined_from k (some w ∷ vs) m v (inr h) =
        let (j, e, at) = nth-defined_from (suc k) vs m v h in (suc j, omega (arith, e), at)

    winner-Wins :
        (values : List (Option Num)) (i j : ℕ) (m w : Num)
        → 2 ≤ length (defined_from 0 values)
        → All (λ e. lt e.0 m ≡ false) (defined_from 0 values)
        → Listed (m, j) (defined_from 0 values)
        → filter (λ e. same_figure e.0 m) (defined_from 0 values) ≡ (w, i) ∷ []
        → Wins i values
    winner-Wins values i j m w two below at only = (
      m,
      ap (λ n. nth n values)
            (sym (ap (λ (p : Num × ℕ). p.1) (only_one (m, j) at (same_figure_refl m))))
          ∙ here,
      better,
      two,
    )
      where
        only_one :
            (e : Num × ℕ) → Listed e (defined_from 0 values) → same_figure e.0 m ≡ true → e ≡ (w, i)
        only_one e h same =
            elim (subst (Listed e) only
              ((Listed-filter (λ x. same_figure x.0 m) e (defined_from 0 values)).1 (h, same))) [
                | inl q ↦ q
                | inr q ↦ absurd q
              ]

        here : nth j values ≡ some (some m)
        here =
            let (n, e, h) = nth-defined_from 0 values j m at in
            subst (λ k. nth k values ≡ some (some m)) (omega (arith, e)) h

        better : (k : ℕ) (x : Num) → nth k values ≡ some (some x) → k ≢ i → lt m x ≡ true
        better k x h ne = elim (Bool-cases (lt m x)) [
          | inl e ↦ e
          | inr e ↦
              let listed = Listed-defined_from 0 values k x h in
              let low =
                of_Listed (λ y. lt y.0 m ≡ false) (x, 0 + k) (defined_from 0 values) below listed in
              let same = only_one (x, 0 + k) listed (same_of x m low e) in
              absurd (ne (omega (arith, ap (λ (p : Num × ℕ). p.1) same)))
        ]

    index_of_best :
        (values : List (Option Num)) (i : ℕ) → best_index values ≡ some i → Wins i values
    unfolding best_index
    index_of_best values i h = elim (Bool-cases (ltb (length (defined_from 0 values)) 2)) [
      | inl short ↦ absurd (never (best_of_short (defined_from 0 values) (ltb→lt _ 2 short)) h)
      | inr long ↦
          let two : 2 ≤ length (defined_from 0 values) =
            not_short (length (defined_from 0 values)) long in
          let (m, (below, (j, at)), run) = best_of_run (defined_from 0 values) two in
          let (w, only) = winner_of _ i (sym run ∙ h) in
          winner-Wins values i j m w two below at only
    ]
      where
        never : {o : Option ℕ} → o ≡ none → o ≡ some i → ⊥
        never p q = cc

        not_short : (n : ℕ) → ltb n 2 ≡ false → 2 ≤ n
        not_short n p = ground arith

    -- The least figure is that of the winner.
    least-winner :
        (values : List (Option Num)) (i j : ℕ) (m v : Num)
        → nth i values ≡ some (some v)
        → ((k : ℕ) (w : Num) → nth k values ≡ some (some w) → k ≢ i → lt v w ≡ true)
        → All (λ e. lt e.0 m ≡ false) (defined_from 0 values)
        → nth j values ≡ some (some m)
        → m ≡ v
    least-winner values i j m v at worse below here = elim (ℕ_discrete j i) [
      | yes e ↦ cc (ap (λ n. nth n values) e)
      | no ne ↦
          let low =
            of_Listed (λ e. lt e.0 m ≡ false) (v, 0 + i) (defined_from 0 values) below
              (Listed-defined_from 0 values i v at) in
          cc (worse j m here ne)
    ]

    best_index-Wins :
        (values : List (Option Num)) (i : ℕ) → Wins i values → best_index values ≡ some i
    unfolding best_index single_winner
    best_index-Wins values i (v, at, worse, two) =
        let (m, (below, (j, found)), run) = best_of_run (defined_from 0 values) two in
        let (j', e, here) = nth-defined_from 0 values j m found in
        let m_is_v = least-winner values i j' m v at worse below here in
        run
        ∙ ap (λ x. single_winner (filter (λ e. same_figure e.0 x) (defined_from 0 values))) m_is_v
        ∙ ap single_winner (filter-winner v i 0 values at worse)
        ∙ ap some (omega arith)

  -- With an order of the figures, the badge goes to a column exactly if its figure is defined and better
  -- than that of every other column, of which at least one has a figure.
  pub best_index_iff :
      (order : IsStrictOrder lt) (values : List (Option Num)) (i : ℕ)
      → (best_index values ≡ some i) ↔ Wins i values
  best_index_iff order values i = (index_of_best order values i, best_index-Wins order values i)
