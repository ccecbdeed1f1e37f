-- ===== src/Logs/Rows.antt =====
-- The rows of the request log under the keys j, k and Enter.
use wai_ai.Common.{
  ℕ, zero, suc, ◌+◌, ◌-◌, min, ◌≤◌, ◌<◌, ◌≡◌, refl, ap, subst, ◌∙◌, String, false, Option, some,
  List, [], ◌∷◌, length, arith, ◌==◌, or_default,
}
use wai_ai.Common.Int.{ℤ}
use wai_ai.Controls.Segmented.{nth}
use wai_ai.LiveTail.{Row}
use wai_ai.Logs.{UrlParams, UrlLaws, Logs, request_of, update_params}
use wai_ai.Logs.Page.{TableKey, change, focus_row, open_at, on_table_key_down}

-- A key that is pressed on a row, not on its button, with nothing held.
abbrev pub plain : String → TableKey
plain k = record { key = k; modified = false; editable = false; on_control = false }

module _ {Params : Type 0} (u : UrlParams Params) (laws : UrlLaws u)
    (parse_date : String → Option ℤ) where
  -- The same key, pressed again and again.
  unfoldable pub press : ℕ → String → List Row → Logs Params → Logs Params
  unfolding on_table_key_down
  press zero k rows s = s
  press (suc n) k rows s = press n k rows (on_table_key_down u parse_date rows (plain k) s)

  nth-below : {A : Type 0} (i : ℕ) (xs : List A) → i < length xs → (x : A) × (nth i xs ≡ some x)
  unfolding nth
  nth-below i [] h = absurd (omega arith)
  nth-below zero (x ∷ xs) h = (x, refl)
  nth-below (suc i) (x ∷ xs) h = nth-below i xs (omega arith)

  -- The row at `i` is the active one and has the focus.
  abbrev IsAt : List Row → ℕ → Logs Params → Type 0
  IsAt rows i s =
      (s.active_index ≡ i) × ((r : Row) × (nth i rows ≡ some r) × (s.focused ≡ some r.id))

  focus_row-IsAt :
      (rows : List Row) (i j : ℕ) (s : Logs Params)
      → j < length rows
      → min i (length rows - 1) ≡ j
      → IsAt rows j (focus_row u parse_date rows i s)
  unfolding focus_row
  focus_row-IsAt rows i j s h c =
      let (r, e) = nth-below j rows h in rw (c, e) (refl, (r, refl, refl))

  press_j :
      (rows : List Row) (n a : ℕ) (s : Logs Params)
      → IsAt rows a s
      → a + n < length rows
      → IsAt rows (a + n) (press n "j" rows s)
  unfolding press on_table_key_down
  press_j rows zero a s at h = subst (λ m. IsAt rows m s) (omega arith) at
  press_j rows (suc n) a s (e, at) h =
      let next =
        focus_row-IsAt rows (suc (min s.active_index (length rows - 1))) (suc a) s (omega arith)
          (omega (arith, e)) in
      let later = press_j rows n (suc a) _ next (omega arith) in
      subst (λ m. IsAt rows m (press (suc n) "j" rows s)) (omega arith) later

  press_k :
      (rows : List Row) (n : ℕ) (s : Logs Params)
      → 0 < length rows
      → min s.active_index (length rows - 1) ≤ suc n
      → IsAt rows 0 (press (suc n) "k" rows s)
  unfolding press on_table_key_down
  press_k rows zero s pos le =
      focus_row-IsAt rows (min s.active_index (length rows - 1) - 1) 0 s pos (omega arith)
  press_k rows (suc n) s pos le =
      let i = min s.active_index (length rows - 1) - 1 in
      let (e, at) = focus_row-IsAt rows i i s (omega arith) (omega arith) in
      press_k rows n (focus_row u parse_date rows i s) pos (omega (arith, e))

  request-change :
      (id : String) (s : Logs Params)
      → (id == "") ≡ false
      → request_of u (change u parse_date "request" (some id) s).params ≡ id
  unfolding request_of change update_params
  request-change id s h =
      rw h (ap (λ o. or_default o "") (laws.get-set "request" "request" id s.params))

  nth-some-lt : {A : Type 0} (i : ℕ) (xs : List A) (x : A) → nth i xs ≡ some x → i < length xs
  unfolding nth
  nth-some-lt i [] x h = cc
  nth-some-lt zero (y ∷ ys) x h = omega arith
  nth-some-lt (suc i) (y ∷ ys) x h = omega (arith, nth-some-lt i ys x h)

  focused-IsAt :
      (rows : List Row) (i : ℕ) (r : Row) (s : Logs Params)
      → IsAt rows i s
      → nth i rows ≡ some r
      → s.focused ≡ some r.id
  focused-IsAt rows i r s (a, (q, found, at)) e =
      let same : q ≡ r = cc in at ∙ ap (λ (x : Row). some x.id) same

  enter-IsAt :
      (rows : List Row) (i : ℕ) (r : Row) (s : Logs Params)
      → IsAt rows i s
      → nth i rows ≡ some r
      → (r.id == "") ≡ false
      → request_of u (on_table_key_down u parse_date rows (plain "Enter") s).params ≡ r.id
  unfolding on_table_key_down
  enter-IsAt rows i r s (a, at) e named =
      let lt = nth-some-lt i rows r e in
      let c : min s.active_index (length rows - 1) ≡ i = omega (arith, a, lt) in
      ap (λ o. request_of u (open_at u parse_date o s).params) (ap (λ m. nth m rows) c ∙ e)
      ∙ request-change r.id s named

  stays-IsAt :
      (rows : List Row) (i : ℕ) (r newer : Row) (s : Logs Params)
      → IsAt rows i s
      → nth i rows ≡ some r
      → (on_table_key_down u parse_date (newer ∷ rows) (plain "j") s).focused ≡ some r.id
  unfolding on_table_key_down nth
  stays-IsAt rows i r newer s (a, at) e =
      let lt = nth-some-lt i rows r e in
      focused-IsAt (newer ∷ rows) (suc i) r
        (on_table_key_down u parse_date (newer ∷ rows) (plain "j") s)
        (focus_row-IsAt (newer ∷ rows) (suc (min s.active_index (length (newer ∷ rows) - 1)))
          (suc i) s (omega (arith, lt)) (omega (arith, a, lt)))
        e

  -- From any row, k pressed once for each row of the list and then j pressed `i` times puts the focus on
  -- the row at `i`, counted from 0, if it has an id; and Enter, where it is not pressed on a button, puts
  -- that row's id into the parameters, which keep what is set. But if a new row comes above the others
  -- then, another j leaves the focus on the same row.
  pub press-reaches :
      (rows : List Row) (i : ℕ) (r newer : Row) (s : Logs Params)
      → nth i rows ≡ some r
      → (r.id == "") ≡ false
      → let there = press i "j" rows (press (length rows) "k" rows s) in
        (there.focused ≡ some r.id)
        × (request_of u (on_table_key_down u parse_date rows (plain "Enter") there).params ≡ r.id)
        × ((on_table_key_down u parse_date (newer ∷ rows) (plain "j") there).focused ≡ some r.id)
  unfolding nth
  press-reaches [] i r newer s e named = cc
  press-reaches (x ∷ xs) i r newer s e named =
      let rows = x ∷ xs in
      let lt = nth-some-lt i rows r e in
      let first = press_k rows (length xs) s (omega arith) (omega arith) in
      let top = press (length rows) "k" rows s in
      let at =
        subst (λ m. IsAt rows m (press i "j" rows top)) (omega arith)
          (press_j rows i 0 top first (omega (arith, lt))) in
      (
        focused-IsAt rows i r (press i "j" rows top) at e,
        enter-IsAt rows i r (press i "j" rows top) at e named,
        stays-IsAt rows i r newer (press i "j" rows top) at e,
      )
