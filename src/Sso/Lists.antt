-- ===== src/Sso/Lists.antt =====
-- A list of texts is read back from the text that the form shows.
use Prim.Native.Char.{Char, code}
use Prim.Native.String.{String, ◌∷◌}
use wai_ai.Common.{
  ◌≡◌, refl, sym, ap, ◌∙◌, Bool, true, false, not, ◌&&◌, List, map, filter, eqb, All, Bool-cases,
  inl, inr, and_left, and_right, not-true,
}
use wai_ai.Common.Text.{append, truthy, trim}
use wai_ai.Models.{split_commas}
use wai_ai.Sso.{parse_csv, to_csv}

unfoldable pub no_comma : String → Bool
no_comma String.[] = true
no_comma (c ∷ s) = not (eqb (code c) 44) && no_comma s

-- An item that such a text can hold: not empty, without a comma, and with no blank at its ends.
abbrev pub IsItem : String → Type 0
IsItem s = (no_comma s ≡ true) × (trim s ≡ s) × (truthy s ≡ true)

split_some : (s : String) → (w : String) × (ws : List String) × (split_commas s ≡ List.◌∷◌ w ws)
unfolding split_commas
split_some String.[] = (String.[], List.[], refl)
split_some (c ∷ s) =
    let (w, ws, e) = split_some s in
    elim (Bool-cases (eqb (code c) 44)) [
      | inl q ↦ (String.[], List.◌∷◌ w ws, rw (e, q) refl)
      | inr q ↦ (c ∷ w, ws, rw (e, q) refl)
    ]

split-comma : (s : String) → split_commas ("," ∷ s) ≡ List.◌∷◌ "" (split_commas s)
unfolding split_commas
split-comma s = let (w, ws, e) = split_some s in rw e refl

split-letter :
    (c : Char) (s w : String) (ws : List String)
    → eqb (code c) 44 ≡ false
    → split_commas s ≡ List.◌∷◌ w ws
    → split_commas (c ∷ s) ≡ List.◌∷◌ (c ∷ w) ws
unfolding split_commas
split-letter c s w ws h e = rw (e, h) refl

first_ink : (c : Char) (s : String) → no_comma (c ∷ s) ≡ true → eqb (code c) 44 ≡ false
unfolding no_comma
first_ink c s h = not-true _ (and_left _ (no_comma s) h)

rest_free : (c : Char) (s : String) → no_comma (c ∷ s) ≡ true → no_comma s ≡ true
unfolding no_comma
rest_free c s h = and_right (not (eqb (code c) 44)) _ h

split-item : (x : String) → no_comma x ≡ true → split_commas x ≡ List.◌∷◌ x List.[]
split-item String.[] h = unfold split_commas in refl
split-item (c ∷ s) h = split-letter c s s List.[] (first_ink c s h) (split-item s (rest_free c s h))

split-append :
    (x s : String)
    → no_comma x ≡ true
    → split_commas (append x ("," ∷ s)) ≡ List.◌∷◌ x (split_commas s)
unfolding append
split-append String.[] s h = split-comma s
split-append (c ∷ x) s h =
    split-letter c (append x ("," ∷ s)) x (split_commas s) (first_ink c x h)
      (split-append x s (rest_free c x h))

trim-blank : (w : String) → trim (" " ∷ w) ≡ trim w
unfolding trim
trim-blank w = refl

map-trim-blank : (s : String) → map trim (split_commas (" " ∷ s)) ≡ map trim (split_commas s)
map-trim-blank s =
    let (w, ws, e) = split_some s in
    ap (map trim) (split-letter " " s w ws refl e)
    ∙ ap (λ t. List.◌∷◌ t (map trim ws)) (trim-blank w)
    ∙ ap (map trim) (sym e)

-- The texts that the form makes of such items are read back.
pub parse_csv-to_csv : (xs : List String) → All IsItem xs → parse_csv (to_csv xs) ≡ xs
unfolding parse_csv to_csv
parse_csv-to_csv List.[] h = unfold split_commas in unfold trim in refl
parse_csv-to_csv (List.◌∷◌ x List.[]) ((c, t, f), h) = rw (split-item x c, t, f) refl
parse_csv-to_csv (List.◌∷◌ x (List.◌∷◌ y ys)) ((c, t, f), h) =
    let rest = to_csv (List.◌∷◌ y ys) in
    ap (λ l. filter truthy (map trim l)) (split-append x (" " ∷ rest) c)
    ∙ (rw (t, f, map-trim-blank rest) (ap (List.◌∷◌ x) (parse_csv-to_csv (List.◌∷◌ y ys) h)))
