-- ===== src/Keys/Limits/Tests.antt =====
-- Texts of limits.
use wai_ai.Common.{◌<◌, ℕ, ◌≡◌, ◌⊎◌, refl, true, none, some}
use wai_ai.Common.Decimal.{max_safe, print_nat, parse_int, matches_digits, read_digits}
use wai_ai.Common.Int.{pos, negsuc}
use wai_ai.Common.Text.{trim, is_space}
use wai_ai.Keys.Limits.{parse_limit, validate_limit}
use wai_ai.Keys.Limits.Texts.{validate_limit-parse_limit}

-- The engine on numbers that it reads exactly.
abbrev exact : ℕ → ℕ
exact n = n

prints : print_nat 9007199254740991 ≡ "9007199254740991"
unfolding print_nat
prints = refl

reads : parse_int exact "  -12abc" ≡ some (negsuc 11)
unfolding parse_int is_space
reads = refl

reads_nothing : parse_int exact "abc" ≡ none
unfolding parse_int is_space
reads_nothing = refl

fraction_refused : validate_limit "1.5" ≡ some "Enter a whole number (0 = unlimited)"
unfolding validate_limit trim matches_digits
fraction_refused = refl

blanks_accepted : validate_limit " 1500 " ≡ none
unfolding validate_limit trim matches_digits
blanks_accepted = refl

validate_limit-parse_limit_example :
    ((trim " 1500 " ≡ "") × (parse_limit exact " 1500 " ≡ none))
    ⊎ ((matches_digits (trim " 1500 ") ≡ true)
        × (parse_limit exact " 1500 " ≡ some (pos (exact (read_digits 0 (trim " 1500 ")))))
        × ((max_safe < read_digits 0 (trim " 1500 "))
            ⊎ (parse_limit exact " 1500 " ≡ some (pos (read_digits 0 (trim " 1500 "))))))
validate_limit-parse_limit_example =
    validate_limit-parse_limit exact " 1500 " (λ n h. refl) blanks_accepted
