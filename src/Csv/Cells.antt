-- ===== src/Csv/Cells.antt =====
-- What a reader makes of one cell.
use Prim.Native.Char.{Char, code}
use Prim.Native.String.{String}
use wai_ai.Common.{
  ◌≡◌, refl, ap, sym, subst, ◌∙◌, Bool, true, false, ◌||◌, Option, none, some, arith, eqb,
  Bool-cases, inl, inr, if◌then◌else◌, any,
}
use wai_ai.Common.Text.{append, starts_with, includes}
use wai_ai.Common.Text.Prefix.{append_assoc}
use wai_ai.Csv.{double_quotes, quote_cell, defuse, formula_starts}
use wai_ai.Csv.Reader.{start, bare, quoted, after_quote, Rest, put, on_rest, read}

-- No comma, quote or line feed.
abbrev IsPlain : String → Type 0
IsPlain String.[] = Unit
IsPlain (String.◌∷◌ c s) =
    ((eqb (code c) b'"' ≡ false) × (eqb (code c) b',' ≡ false) × (eqb (code c) 10 ≡ false))
    × IsPlain s

abbrev pub before_rest : String → Rest → Rest
before_rest s r = record r { field = append s r.field }

on_rest-put :
    (c : Char) (s : String) (o : Option Rest)
    → on_rest (put c) (on_rest (before_rest s) o) ≡ on_rest (before_rest (String.◌∷◌ c s)) o
unfolding on_rest append
on_rest-put c s none = refl
on_rest-put c s (some r) = refl

on_rest-nothing : (o : Option Rest) → o ≡ on_rest (before_rest "") o
unfolding on_rest append
on_rest-nothing none = refl
on_rest-nothing (some r) = refl

read_bare :
    (s t : String) → IsPlain s → read bare (append s t) ≡ on_rest (before_rest s) (read bare t)
unfolding append read on_rest
read_bare String.[] t h = on_rest-nothing (read bare t)
read_bare (String.◌∷◌ c s) t ((q, k, l), h) =
    rw (read, q, k, l) (ap (on_rest (put c)) (read_bare s t h) ∙ on_rest-put c s (read bare t))

read_pair :
    (c : Char) (u : String)
    → eqb (code c) b'"' ≡ true
    → read quoted (String.◌∷◌ c (String.◌∷◌ c u)) ≡ on_rest (put c) (read quoted u)
unfolding read
read_pair c u q = ground arith

read_one :
    (c : Char) (u : String)
    → eqb (code c) b'"' ≡ false
    → read quoted (String.◌∷◌ c u) ≡ on_rest (put c) (read quoted u)
unfolding read
read_one c u q = rw (q, read) refl

read_doubled :
    (c : Char) (s t : String) (b : Bool)
    → eqb (code c) b'"' ≡ b
    → read quoted (
        append
          (if b
            then String.◌∷◌ c (String.◌∷◌ c (double_quotes s))
            else String.◌∷◌ c (double_quotes s))
          t)
      ≡ on_rest (put c) (read quoted (append (double_quotes s) t))
unfolding append
read_doubled c s t true q = read_pair c (append (double_quotes s) t) q
read_doubled c s t false q = read_one c (append (double_quotes s) t) q

-- Within quotes, a cell with its quotes doubled is read as it was.
read_quoted :
    (s t : String)
    → read quoted (append (double_quotes s) t) ≡ on_rest (before_rest s) (read quoted t)
unfolding append double_quotes
read_quoted String.[] t = on_rest-nothing (read quoted t)
read_quoted (String.◌∷◌ c s) t =
    read_doubled c s t (eqb (code c) b'"') refl
    ∙ ap (on_rest (put c)) (read_quoted s t)
    ∙ on_rest-put c s (read quoted t)

-- A text at which a field ends.
abbrev pub Ends : String → Type 0
Ends t = (read bare t ≡ read start t) × (read after_quote t ≡ read start t)

IsPlain-of :
    (s : String)
    → includes s "," ≡ false
    → includes s "\"" ≡ false
    → includes s "\n" ≡ false
    → IsPlain s
unfolding includes starts_with
IsPlain-of String.[] a b c = tt
IsPlain-of (String.◌∷◌ d s) a b c = (
  (ground arith, ground arith, ground arith),
  IsPlain-of s (ground arith) (ground arith) (ground arith),
)

read_start_plain :
    (s t : String)
    → IsPlain s
    → Ends t
    → read start (append s t) ≡ on_rest (before_rest s) (read start t)
unfolding append read on_rest
read_start_plain String.[] t h e = on_rest-nothing (read start t)
read_start_plain (String.◌∷◌ c s) t ((q, k, l), h) (e, _) =
    rw (read, q, k, l)
      (ap (on_rest (put c)) (read_bare s t h ∙ ap (on_rest (before_rest s)) e)
        ∙ on_rest-put c s (read start t))

read_start_quoted :
    (s t : String)
    → Ends t
    → read start (append (append "\"" (append (double_quotes s) "\"")) t)
      ≡ on_rest (before_rest s) (read start t)
unfolding append read
read_start_quoted s t (_, e) =
    ap (read quoted) (append_assoc (double_quotes s) "\"" t)
    ∙ read_quoted s (append "\"" t)
    ∙ ap (on_rest (before_rest s)) e

-- A cell is read as it was, and the rest of the text after it.
pub read-quote_cell :
    (s t : String)
    → Ends t
    → read start (append (quote_cell s) t) ≡ on_rest (before_rest s) (read start t)
unfolding quote_cell
read-quote_cell s t e = elim (Bool-cases (includes s "," || includes s "\"" || includes s "\n")) [
  | inl q ↦ rw (q, quote_cell) (read_start_quoted s t e)
  | inr p ↦
      rw (p, quote_cell)
        (read_start_plain s t (IsPlain-of s (ground arith) (ground arith) (ground arith)) e)
]

defused_at : (s : String) → any (starts_with (append "'" s)) formula_starts ≡ false
unfolding append starts_with
defused_at s = refl

-- No cell begins like a formula, as a spreadsheet reads it.
pub defuse-formula : (s : String) → any (starts_with (defuse s)) formula_starts ≡ false
unfolding defuse
defuse-formula s = elim (Bool-cases (any (starts_with s) formula_starts)) [
  | inl e ↦
      subst (λ x. any (starts_with x) formula_starts ≡ false) (sym (defuse_yes e)) (defused_at s)
  | inr e ↦ subst (λ x. any (starts_with x) formula_starts ≡ false) (sym (defuse_no e)) e
]
  where
    defuse_yes : any (starts_with s) formula_starts ≡ true → defuse s ≡ append "'" s
    defuse_yes e = ground arith

    defuse_no : any (starts_with s) formula_starts ≡ false → defuse s ≡ s
    defuse_no e = ground arith
