-- ===== src/Common/Decimal/RoundTrip.antt =====
-- A whole number is read back from its print.
use Prim.Native.Char.{Char, code}
use Prim.Native.Nat.{ℕ, zero, suc, ◌+◌, ◌/◌, ◌%◌, ◌<◌, ◌≤◌}
use Prim.Native.String.{String}
use mathlib.Core.Bool.{true, false}
use mathlib.Core.Logic.{inl, inr}
use mathlib.Core.Option.{some}
use mathlib.Core.Path.{◌≡◌, refl, ap, ◌∙◌}
use native.Mathlib.Omega.{arith}
use wai_ai.Common.Decimal.{
  digit, digits, print_nat, is_digit, read_digits, leading_nat, is_digits, matches_digits,
  parse_int, signed, positive,
}
use wai_ai.Common.Int.{pos}
use wai_ai.Common.Tests.{ltb, Bool-cases}
use wai_ai.Common.Text.{append, trim_start, is_space}

code-digit : (m : ℕ) → m < 10 → code (digit m) ≡ 48 + m
unfolding digit
code-digit zero h = refl
code-digit (suc zero) h = refl
code-digit (suc (suc zero)) h = refl
code-digit (suc (suc (suc zero))) h = refl
code-digit (suc (suc (suc (suc zero)))) h = refl
code-digit (suc (suc (suc (suc (suc zero))))) h = refl
code-digit (suc (suc (suc (suc (suc (suc zero)))))) h = refl
code-digit (suc (suc (suc (suc (suc (suc (suc zero))))))) h = refl
code-digit (suc (suc (suc (suc (suc (suc (suc (suc zero)))))))) h = refl
code-digit (suc (suc (suc (suc (suc (suc (suc (suc (suc zero))))))))) h = refl
code-digit (suc (suc (suc (suc (suc (suc (suc (suc (suc (suc n)))))))))) h = absurd (omega arith)

read_last :
    (n : ℕ) (out : String)
    → read_digits (n / 10) (String.◌∷◌ (digit (n % 10)) out) ≡ read_digits n out
unfolding read_digits
read_last n out = ground (arith, code-digit (n % 10) (omega arith))

-- The digits of a number, read from the left, give it back.
read_digits-digits :
    (k n : ℕ) (out : String) → n ≤ k → read_digits 0 (digits k n out) ≡ read_digits n out
unfolding digits
read_digits-digits zero n out h = ap (λ m. read_digits m out) zero_only
  where
    zero_only : 0 ≡ n
    zero_only = omega arith
read_digits-digits (suc k) n out h = elim (Bool-cases (ltb 0 n)) [
  | inl e ↦
      rw (e, digits)
        (read_digits-digits k (n / 10) (String.◌∷◌ (digit (n % 10)) out) (ground arith)
          ∙ read_last n out)
  | inr e ↦ rw (e, digits) (ap (λ m. read_digits m out) (zero_of e))
]
  where
    zero_of : ltb 0 n ≡ false → 0 ≡ n
    zero_of e = ground arith

is_digits-digit :
    (m : ℕ) (out : String)
    → is_digits out ≡ true
    → matches_digits (String.◌∷◌ (digit (m % 10)) out) ≡ true
unfolding matches_digits is_digits
is_digits-digit m out h = ground (arith, code-digit (m % 10) (omega arith))

is_digits-of_match : (s : String) → matches_digits s ≡ true → is_digits s ≡ true
unfolding matches_digits
is_digits-of_match String.[] h = cc
is_digits-of_match (String.◌∷◌ c s) h = h

matches_digits-digits :
    (k n : ℕ) (out : String) → matches_digits out ≡ true → matches_digits (digits k n out) ≡ true
unfolding digits
matches_digits-digits zero n out h = h
matches_digits-digits (suc k) n out h = elim (Bool-cases (ltb 0 n)) [
  | inl e ↦
      rw (e, digits)
        (matches_digits-digits k (n / 10) _ (is_digits-digit n out (is_digits-of_match out h)))
  | inr e ↦ rw (e, digits) h
]

-- The print of a positive number ends in its last digit.
print_nat-suc :
    (n : ℕ) → print_nat (suc n) ≡ digits n (suc n / 10) (String.◌∷◌ (digit (suc n % 10)) "")
unfolding print_nat digits
print_nat-suc n = ground arith

-- The print of a whole number consists of digits.
pub matches_digits-print_nat : (n : ℕ) → matches_digits (print_nat n) ≡ true
unfolding print_nat matches_digits is_digits
matches_digits-print_nat zero = refl
matches_digits-print_nat (suc n) =
    rw (print_nat-suc n) (matches_digits-digits n (suc n / 10) _ (is_digits-digit (suc n) "" refl))

pub read_digits-print_nat : (n : ℕ) → read_digits 0 (print_nat n) ≡ n
unfolding print_nat read_digits
read_digits-print_nat zero = refl
read_digits-print_nat (suc n) = rw (print_nat-suc n) (
    read_digits-digits n (suc n / 10) (String.◌∷◌ (digit (suc n % 10)) "") (omega arith)
    ∙ read_last (suc n) "")

pub digit-not_space : (c : Char) → is_digit c ≡ true → is_space (code c) ≡ false
unfolding is_space
digit-not_space c h = ground arith

pub first_digit : (c : Char) (s : String) → is_digits (String.◌∷◌ c s) ≡ true → is_digit c ≡ true
unfolding is_digits
first_digit c s h = ground arith

pub trim_start-digit :
    (c : Char) (s : String) → is_digit c ≡ true → trim_start (String.◌∷◌ c s) ≡ String.◌∷◌ c s
unfolding trim_start
trim_start-digit c s h = rw (digit-not_space c h) refl

module _ (engine : ℕ → ℕ) where
  pub signed-digit :
      (c : Char) (s : String)
      → is_digit c ≡ true
      → signed engine (String.◌∷◌ c s) ≡ some (pos (engine (read_digits 0 (String.◌∷◌ c s))))
  unfolding signed positive leading_nat
  signed-digit c s h = ground arith

  -- A text of digits is read as the number that they spell.
  pub parse_int-digits :
      (s : String)
      → matches_digits s ≡ true
      → parse_int engine s ≡ some (pos (engine (read_digits 0 s)))
  unfolding parse_int matches_digits
  parse_int-digits String.[] h = cc
  parse_int-digits (String.◌∷◌ c s) h =
      let d = first_digit c s h in ap (signed engine) (trim_start-digit c s d) ∙ signed-digit c s d

  -- A whole number that the engine reads exactly is read back from its print.
  pub parse_int-print_nat : (n : ℕ) → engine n ≡ n → parse_int engine (print_nat n) ≡ some (pos n)
  parse_int-print_nat n exact =
      parse_int-digits (print_nat n) (matches_digits-print_nat n)
      ∙ ap (λ m. some (pos m)) (ap engine (read_digits-print_nat n) ∙ exact)

leading_nat-digits : (s : String) → matches_digits s ≡ true → leading_nat s ≡ some (read_digits 0 s)
unfolding leading_nat matches_digits
leading_nat-digits String.[] h = cc
leading_nat-digits (String.◌∷◌ c s) h = rw (first_digit c s h) refl

pub leading_nat-print_nat : (n : ℕ) → leading_nat (print_nat n) ≡ some n
leading_nat-print_nat n =
    leading_nat-digits (print_nat n) (matches_digits-print_nat n)
    ∙ ap (λ m. some m) (read_digits-print_nat n)

digits-more :
    (k n : ℕ) (out : String)
    → ltb 0 n ≡ true
    → digits (suc k) n out ≡ digits k (n / 10) (String.◌∷◌ (digit (n % 10)) out)
unfolding digits
digits-more k n out h = rw (h, digits) refl

digits-done : (k n : ℕ) (out : String) → ltb 0 n ≡ false → digits (suc k) n out ≡ out
unfolding digits
digits-done k n out h = rw (h, digits) refl

append-digits : (k n : ℕ) (out t : String) → append (digits k n out) t ≡ digits k n (append out t)
append-digits zero n out t = unfold digits in refl
append-digits (suc k) n out t = elim (Bool-cases (ltb 0 n)) [
  | inl e ↦
      rw (digits-more k n out e, digits-more k n (append out t) e)
        (append-digits k (n / 10) (String.◌∷◌ (digit (n % 10)) out) t
          ∙ ap (digits k (n / 10)) (unfold append in refl))
  | inr e ↦ rw (digits-done k n out e, digits-done k n (append out t) e) refl
]

read_digits_end :
    (n : ℕ) (c : Char) (t : String) → is_digit c ≡ false → read_digits n (String.◌∷◌ c t) ≡ n
unfolding read_digits
read_digits_end n c t h = rw h refl

-- A number is read from a text that goes on after it with something else than a digit.
pub read_digits-prefix :
    (n : ℕ) (c : Char) (t : String)
    → is_digit c ≡ false
    → read_digits 0 (append (print_nat n) (String.◌∷◌ c t)) ≡ n
unfolding print_nat read_digits append
read_digits-prefix zero c t h = rw h refl
read_digits-prefix (suc n) c t h =
    rw
      (
        print_nat-suc n,
        append-digits n (suc n / 10) (String.◌∷◌ (digit (suc n % 10)) "") (String.◌∷◌ c t),
      )
      (read_digits-digits n (suc n / 10) (String.◌∷◌ (digit (suc n % 10)) (String.◌∷◌ c t))
          (omega arith)
        ∙ read_last (suc n) (String.◌∷◌ c t)
        ∙ read_digits_end (suc n) c t h)
