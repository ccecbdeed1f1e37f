-- ===== src/Keys/Limits/Texts.antt =====
-- What the text of a limit says: what `validateLimits` lets through, and the texts of stored limits.
use Prim.Native.Char.{Char, code}
use Prim.Native.String.{[], ◌∷◌}
use wai_ai.Common.{
  ℕ, ◌+◌, ◌*◌, ◌-◌, ◌≤◌, ◌<◌, ◌≡◌, refl, ap, ◌∙◌, String, true, false, none, some, ◌⊎◌, inl, inr,
  arith, ltb, Bool-cases, if◌then◌else◌,
}
use wai_ai.Common.Decimal.{
  print_nat, max_safe, parse_int, matches_digits, is_digits, is_digit, read_digits, signed,
}
use wai_ai.Common.Decimal.RoundTrip.{
  matches_digits-print_nat, parse_int-print_nat, signed-digit, digit-not_space, trim_start-digit,
  first_digit,
}
use wai_ai.Common.Int.{pos}
use wai_ai.Common.Text.{truthy, trim, trim_end, trim_start, put_before, is_space}
use wai_ai.Keys.Limits.{parse_limit, validate_limit, limit_text}

space-not_digit : (c : Char) → is_space (code c) ≡ true → is_digit c ≡ false
unfolding is_space
space-not_digit c h = ground arith

-- `r` is what `trim_end` leaves of `s`.
read_digits-put_before :
    (n : ℕ) (c : Char) (s r : String)
    → ((m : ℕ) → is_digits r ≡ true → read_digits m s ≡ read_digits m r)
    → is_digits (put_before c r) ≡ true
    → read_digits n (c ∷ s) ≡ read_digits n (put_before c r)
unfolding put_before read_digits is_digits
read_digits-put_before n c s [] ih h = elim (Bool-cases (is_space (code c))) [
  | inl e ↦ rw (e, space-not_digit c e) refl
  | inr e ↦ ground (arith, ih (n * 10 + (code c - 48)))
]
read_digits-put_before n c s (d ∷ r) ih h = ground (arith, ih (n * 10 + (code c - 48)))

-- Blanks after the digits are not read.
read_digits-trim_end :
    (n : ℕ) (s : String)
    → is_digits (trim_end s) ≡ true
    → read_digits n s ≡ read_digits n (trim_end s)
unfolding trim_end
read_digits-trim_end n [] h = refl
read_digits-trim_end n (c ∷ s) h =
    read_digits-put_before n c s (trim_end s) (λ m. read_digits-trim_end m s) h

first_is_digit :
    (c : Char) (r : String) → matches_digits (put_before c r) ≡ true → is_digit c ≡ true
unfolding put_before matches_digits is_digits
first_is_digit c [] h = elim (Bool-cases (is_space (code c))) [ inl e ↦ cc | inr e ↦ ground arith ]
first_is_digit c (d ∷ r) h = ground arith

is_digits-of_match : (s : String) → matches_digits s ≡ true → is_digits s ≡ true
unfolding matches_digits
is_digits-of_match [] h = cc
is_digits-of_match (c ∷ s) h = h

trim_end-none : (s : String) → truthy s ≡ false → s ≡ ""
trim_end-none [] h = refl
trim_end-none (c ∷ s) h = cc

put_before-digit : (c : Char) (s : String) → is_digit c ≡ true → put_before c s ≡ c ∷ s
unfolding put_before
put_before-digit c [] h = rw (digit-not_space c h) refl
put_before-digit c (d ∷ s) h = refl

trim_end-digits : (s : String) → is_digits s ≡ true → trim_end s ≡ s
unfolding trim_end is_digits
trim_end-digits [] h = refl
trim_end-digits (c ∷ s) h =
    let d : is_digit c ≡ true = ground arith in
    let later : is_digits s ≡ true = ground arith in
    ap (put_before c) (trim_end-digits s later) ∙ put_before-digit c s d

trim-digits : (s : String) → matches_digits s ≡ true → (trim s ≡ s) × (truthy s ≡ true)
unfolding trim matches_digits
trim-digits [] h = cc
trim-digits (c ∷ s) h =
    (ap trim_end (trim_start-digit c s (first_digit c s h)) ∙ trim_end-digits (c ∷ s) h, refl)

-- The print of a number has nothing to trim.
pub trim-print_nat : (n : ℕ) → trim (print_nat n) ≡ print_nat n
trim-print_nat n = (trim-digits (print_nat n) (matches_digits-print_nat n)).0

pub truthy-print_nat : (n : ℕ) → truthy (print_nat n) ≡ true
truthy-print_nat n = (trim-digits (print_nat n) (matches_digits-print_nat n)).1

validate_limit-print_nat : (n : ℕ) → validate_limit (print_nat n) ≡ none
unfolding validate_limit
validate_limit-print_nat n =
    rw (trim-print_nat n, truthy-print_nat n, matches_digits-print_nat n) refl

validate_limit-blank : validate_limit "" ≡ none
unfolding validate_limit trim
validate_limit-blank = refl

pub validate_limit-limit_text : (n : ℕ) → validate_limit (limit_text n) ≡ none
unfolding limit_text
validate_limit-limit_text n = ground (arith, validate_limit-print_nat n, validate_limit-blank)

safe_or_not : (n : ℕ) → (max_safe < n) ⊎ (n ≤ max_safe)
safe_or_not n = ground arith

module _ (engine : ℕ → ℕ) where
  signed-trim_end :
      (s : String)
      → matches_digits (trim_end s) ≡ true
      → signed engine s ≡ some (pos (engine (read_digits 0 (trim_end s))))
  unfolding trim_end matches_digits
  signed-trim_end [] h = cc
  signed-trim_end (c ∷ s) h =
      signed-digit engine c s (first_is_digit c (trim_end s) h)
      ∙ ap (λ n. some (pos (engine n)))
          (read_digits-trim_end 0 (c ∷ s) (is_digits-of_match (trim_end (c ∷ s)) h))

  parse_int-trim :
      (v : String)
      → matches_digits (trim v) ≡ true
      → parse_int engine v ≡ some (pos (engine (read_digits 0 (trim v))))
  unfolding trim parse_int
  parse_int-trim v h = signed-trim_end (trim_start v) h

  pub sent_limit :
      (v : String)
      → validate_limit v ≡ none
      → ((trim v ≡ "") × (parse_limit engine v ≡ none))
        ⊎ ((matches_digits (trim v) ≡ true)
            × (parse_limit engine v ≡ some (pos (engine (read_digits 0 (trim v))))))
  unfolding validate_limit parse_limit
  sent_limit v h = ground (arith, parse_int-trim v, trim_end-none (trim v))

  -- A text without an error is blank, and then no limit is sent, or it is a whole number between
  -- blanks, and then what the engine makes of that number is sent: the number itself up to 2^53 - 1,
  -- if the engine reads such numbers exactly.
  pub validate_limit-parse_limit :
      (v : String)
      → ((n : ℕ) → n ≤ max_safe → engine n ≡ n)
      → validate_limit v ≡ none
      → ((trim v ≡ "") × (parse_limit engine v ≡ none))
        ⊎ ((matches_digits (trim v) ≡ true)
            × (parse_limit engine v ≡ some (pos (engine (read_digits 0 (trim v)))))
            × ((max_safe < read_digits 0 (trim v))
                ⊎ (parse_limit engine v ≡ some (pos (read_digits 0 (trim v))))))
  validate_limit-parse_limit v exact h = elim (sent_limit v h) [
    | inl blank ↦ inl blank
    | inr (whole, sent) ↦ inr (
      whole,
      sent,
      elim (safe_or_not (read_digits 0 (trim v))) [
        | inl large ↦ inl large
        | inr safe ↦ inr (sent ∙ ap (λ n. some (pos n)) (exact (read_digits 0 (trim v)) safe))
      ],
    )
  ]

  parse_limit-print_nat : (n : ℕ) → engine n ≡ n → parse_limit engine (print_nat n) ≡ some (pos n)
  unfolding parse_limit
  parse_limit-print_nat n h =
      rw (trim-print_nat n, truthy-print_nat n) (parse_int-print_nat engine n h)

  parse_limit-blank : parse_limit engine "" ≡ none
  unfolding parse_limit trim
  parse_limit-blank = refl

  -- The text of a stored limit has no error, and is sent as the limit if it is not 0.
  pub parse_limit-limit_text :
      (n : ℕ)
      → engine n ≡ n
      → parse_limit engine (limit_text n) ≡ (if ltb 0 n then some (pos n) else none)
  unfolding limit_text
  parse_limit-limit_text n h = ground (arith, parse_limit-print_nat n h, parse_limit-blank)
