-- ===== src/Common/Decimal.antt =====
-- Whole numbers as JavaScript prints and reads them: `String(n)`, `parseInt(s, 10)` and the pattern
-- `/^\d+$/`. What the engine makes of the digits of a number above `Number.MAX_SAFE_INTEGER` is a
-- parameter. (A text of more than 308 digits, which is read as Infinity, is not modelled.)
pub mod RoundTrip
use Prim.Native.Char.{Char, code}
use Prim.Native.Nat.{ℕ, zero, suc, ◌+◌, ◌-◌, ◌*◌, ◌/◌, ◌%◌, ◌≤◌, ◌<◌}
use Prim.Native.String.{String}
use mathlib.Core.Bool.{Bool, true, false, ◌&&◌}
use mathlib.Core.Logic.{dite}
use mathlib.Core.Option.{Option, none, some}
use mathlib.Core.Path.{◌≡◌}
use mathlib.Core.WellFounded.{Acc, WellFounded}
use native.Mathlib.Decide.{dec_lt}
use native.Mathlib.Omega.{arith}
use wai_ai.Common.Int.{ℤ, pos, negsuc}
use wai_ai.Common.Tests.{ltb, leb, eqb, if◌then◌else◌}
use wai_ai.Common.Text.{trim_start}

-- The character of a digit below ten.
unfoldable pub digit : ℕ → Char
digit n =
    if eqb n 0
    then "0"
    else if eqb n 1
    then "1"
    else if eqb n 2
    then "2"
    else if eqb n 3
    then "3"
    else if eqb n 4
    then "4"
    else if eqb n 5
    then "5"
    else if eqb n 6
    then "6"
    else if eqb n 7
    then "7"
    else if eqb n 8
    then "8"
    else "9"

-- The decimal digits of `n`, put before `out`; as many rounds as the number itself are enough.
unfoldable pub digits : ℕ → ℕ → String → String
unfolding digit
digits zero n out = out
digits (suc rounds) n out = elim (ltb 0 n) [
  | false ↦ out
  | true ↦ digits rounds (n / 10) (String.◌∷◌ (digit (n % 10)) out)
]

-- `String(n)` of a whole number
unfoldable pub print_nat : ℕ → String
unfolding digits
print_nat n = if eqb n 0 then "0" else digits n n ""

abbrev pub is_digit : Char → Bool
is_digit c = leb 48 (code c) && leb (code c) 57

-- The number that the leading digits of a text spell behind `n`.
unfoldable pub read_digits : ℕ → String → ℕ
read_digits n String.[] = n
read_digits n (String.◌∷◌ c s) = if is_digit c then read_digits (n * 10 + (code c - 48)) s else n

-- none is NaN: the text does not start with a digit
unfoldable pub leading_nat : String → Option ℕ
unfolding read_digits
leading_nat String.[] = none
leading_nat (String.◌∷◌ c s) = if is_digit c then some (read_digits 0 (String.◌∷◌ c s)) else none

-- -n
abbrev pub negated : ℕ → ℤ
negated zero = pos 0
negated (suc n) = negsuc n

-- `/^\d+$/`
unfoldable pub is_digits : String → Bool
is_digits String.[] = true
is_digits (String.◌∷◌ c s) = is_digit c && is_digits s

unfoldable pub matches_digits : String → Bool
unfolding is_digits
matches_digits String.[] = false
matches_digits (String.◌∷◌ c s) = is_digits (String.◌∷◌ c s)

-- `Number.MAX_SAFE_INTEGER`
abbrev pub max_safe : ℕ
max_safe = 9007199254740991

-- `engine` is the number that the engine makes of digits.
module _ (engine : ℕ → ℕ) where
  unfoldable pub positive : Option ℕ → Option ℤ
  positive none = none
  positive (some n) = some (pos (engine n))

  unfoldable pub negative : Option ℕ → Option ℤ
  negative none = none
  negative (some n) = some (negated (engine n))

  unfoldable pub signed : String → Option ℤ
  unfolding positive negative leading_nat
  signed String.[] = none
  signed (String.◌∷◌ c s) =
      if eqb (code c) 45
      then negative (leading_nat s)
      else if eqb (code c) 43
      then positive (leading_nat s)
      else positive (leading_nat (String.◌∷◌ c s))

  -- `parseInt(value, 10)`; none is NaN
  unfoldable pub parse_int : String → Option ℤ
  unfolding signed trim_start
  parse_int value = signed (trim_start value)
