-- ===== src/Common/Text.antt =====
-- JavaScript's string methods on the native texts, by code point: `trim`, `startsWith`, `includes`,
-- `slice(0, n)` and the order of `<`. A code point above the basic plane counts as two UTF-16 units.
pub mod Order
pub mod Prefix
pub mod Trim
use Prim.Native.Char.{Char, code}
use Prim.Native.Nat.{ℕ, zero, suc, ◌+◌, ◌-◌, ◌/◌, ◌%◌}
use Prim.Native.String.{String}
use mathlib.Core.Bool.{Bool, true, false, ◌&&◌, ◌||◌}
use mathlib.Core.Option.{Option, none, some}
use mathlib.Core.List.{List, [], ◌∷◌}
use wai_ai.Common.Tests.{ltb, leb, eqb, if◌then◌else◌}

-- Truthiness of a string: `!s` is `s === ''`.
abbrev pub truthy : String → Bool
truthy String.[] = false
truthy (String.◌∷◌ c s) = true

-- `s || …` and `s && …` on a string that may be null: what is left of it if it is truthy.
abbrev pub present : Option String → Option String
present none = none
present (some s) = if truthy s then some s else none

-- `s + t`, and a template of the two
unfoldable pub append : String → String → String
append String.[] t = t
append (String.◌∷◌ c s) t = String.◌∷◌ c (append s t)

-- WhiteSpace and LineTerminator of ECMAScript, which `trim` removes and `\s` matches.
unfoldable pub is_space : ℕ → Bool
is_space c =
    leb 9 c && leb c 13
    || eqb c 32
    || eqb c 0xa0
    || eqb c 0x1680
    || leb 0x2000 c && leb c 0x200a
    || eqb c 0x2028
    || eqb c 0x2029
    || eqb c 0x202f
    || eqb c 0x205f
    || eqb c 0x3000
    || eqb c 0xfeff

unfoldable pub trim_start : String → String
trim_start String.[] = String.[]
trim_start (String.◌∷◌ c s) = if is_space (code c) then trim_start s else String.◌∷◌ c s

-- One character put before a text whose end is trimmed already.
unfoldable pub put_before : Char → String → String
put_before c String.[] = if is_space (code c) then String.[] else String.◌∷◌ c String.[]
put_before c (String.◌∷◌ d s) = String.◌∷◌ c (String.◌∷◌ d s)

unfoldable pub trim_end : String → String
unfolding put_before
trim_end String.[] = String.[]
trim_end (String.◌∷◌ c s) = put_before c (trim_end s)

-- `s.trim()`
unfoldable pub trim : String → String
unfolding trim_start trim_end is_space
trim s = trim_end (trim_start s)

-- `s.startsWith(p)`
unfoldable pub starts_with : String → String → Bool
starts_with s String.[] = true
starts_with String.[] (String.◌∷◌ d p) = false
starts_with (String.◌∷◌ c s) (String.◌∷◌ d p) = eqb (code c) (code d) && starts_with s p

-- `s.includes(p)`
unfoldable pub includes : String → String → Bool
unfolding starts_with
includes String.[] p = starts_with String.[] p
includes (String.◌∷◌ c s) p = starts_with (String.◌∷◌ c s) p || includes s p

-- The UTF-16 code units of a text.
unfoldable pub units : String → List ℕ
units String.[] = []
units (String.◌∷◌ c s) =
    let rest = units s in
    if ltb (code c) 0x10000
    then code c ∷ rest
    else (0xd800 + (code c - 0x10000) / 1024) ∷ (0xdc00 + (code c - 0x10000) % 1024) ∷ rest

-- Lists of code units in the order of a dictionary.
unfoldable pub lex_lt : List ℕ → List ℕ → Bool
lex_lt xs [] = false
lex_lt [] (y ∷ ys) = true
lex_lt (x ∷ xs) (y ∷ ys) = if eqb x y then lex_lt xs ys else ltb x y

-- `s < t`
unfoldable pub text_lt : String → String → Bool
unfolding lex_lt units
text_lt s t = lex_lt (units s) (units t)

-- `s.slice(0, n)`, which counts UTF-16 units. (A pair that the cut would halve is left out.)
unfoldable pub slice_start : ℕ → String → String
slice_start n String.[] = String.[]
slice_start zero (String.◌∷◌ c s) = String.[]
slice_start (suc n) (String.◌∷◌ c s) =
    if ltb (code c) 0x10000
    then String.◌∷◌ c (slice_start n s)
    else if eqb n 0
    then String.[]
    else String.◌∷◌ c (slice_start (n - 1) s)

-- `s.trim().toLowerCase()` of a search box; `lower` is the engine's `toLowerCase`.
abbrev pub needle : (String → String) → String → String
needle lower query = lower (trim query)

-- `s?.toLowerCase().includes(q)`
unfoldable pub contains : (String → String) → String → Option String → Bool
unfolding includes
contains lower q none = false
contains lower q (some s) = includes (lower s) q
