-- ===== src/Controls/Segmented.antt =====
-- ui/src/components/ui/SegmentedControl.tsx: which segment a key selects. A value is a text here.
pub mod Moves
use wai_ai.Common.{
  ℕ, zero, suc, ◌+◌, ◌-◌, ◌%◌, String, Bool, true, false, not, Option, none, some, List, [], ◌∷◌,
  map, length, eqb, head?, if◌then◌else◌, ◌==◌,
}

-- `SegmentedControlOption`
pub record Segment : Type 0 where
  pub value : String
  pub disabled : Bool

-- `options.map((o, i) => (o.disabled ? -1 : i)).filter((i) => i >= 0)`, from the index `i` on
unfoldable pub enabled_from : ℕ → List Segment → List ℕ
enabled_from i [] = []
enabled_from i (o ∷ os) =
    let rest = enabled_from (suc i) os in if o.disabled then rest else i ∷ rest

-- `enabled.indexOf(from)`; none is -1
unfoldable pub index_in : ℕ → List ℕ → Option ℕ
index_in x [] = none
index_in x (y ∷ ys) = elim (eqb x y) [
  | true ↦ some 0
  | false ↦ elim (index_in x ys) [ none ↦ none | some i ↦ some (suc i) ]
]

-- `xs[i]`; none is undefined
unfoldable pub nth {ℓ} : {A : Type ℓ} → ℕ → List A → Option A
nth i [] = none
nth zero (x ∷ xs) = some x
nth (suc i) (x ∷ xs) = nth i xs

-- The keys that `handleKeyDown` takes.
pub data ArrowKey : Type 0 where
  arrow_left arrow_right arrow_up arrow_down home_key end_key : ArrowKey

-- The index into `enabled`. `pos` is -1 for none, and `(pos - 1 + n) % n` is then `n - 2`, or 0 for one
-- segment.
unfoldable pub next_position : Option ℕ → ℕ → ArrowKey → ℕ
next_position pos n home_key = 0
next_position pos n end_key = n - 1
next_position none n arrow_right = 0
next_position none n arrow_down = 0
next_position (some p) n arrow_right = (p + 1) % n
next_position (some p) n arrow_down = (p + 1) % n
next_position none n arrow_left = n - 2
next_position none n arrow_up = n - 2
next_position (some p) n arrow_left = (p + n - 1) % n
next_position (some p) n arrow_up = (p + n - 1) % n

-- `move`: the segment that gets the focus; none if all are disabled.
unfoldable pub move : List Segment → ℕ → ArrowKey → Option ℕ
unfolding enabled_from index_in nth next_position
move options from key =
    let enabled = enabled_from 0 options in
    nth (next_position (index_in from enabled) (length enabled) key) enabled

-- The value that `onChange` gets, if it is called.
unfoldable pub change_of : Option Segment → String → Option String
change_of none value = none
change_of (some o) value = if o.value == value then none else some o.value

unfoldable pub changed_to : List Segment → String → ℕ → ArrowKey → Option String
unfolding move change_of
changed_to options value from key = elim (move options from key) [
  | none ↦ none
  | some next ↦ change_of (nth next options) value
]

-- `options.findIndex((o) => o.value === value)`
unfoldable pub find_index : String → List Segment → Option ℕ
find_index value [] = none
find_index value (o ∷ os) = elim (o.value == value) [
  | true ↦ some 0
  | false ↦ elim (find_index value os) [ none ↦ none | some i ↦ some (suc i) ]
]

abbrev pub is_enabled : Option Segment → Bool
is_enabled none = false
is_enabled (some o) = not o.disabled

-- `tabStop`; none is -1
unfoldable pub tab_stop : List Segment → String → Option ℕ
unfolding find_index nth enabled_from
tab_stop options value = elim (find_index value options) [
  | none ↦ head? (enabled_from 0 options)
  | some i ↦ if is_enabled (nth i options) then some i else head? (enabled_from 0 options)
]
