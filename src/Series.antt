-- ===== src/Series.antt =====
-- ui/src/components/analytics/timeSeries.ts, compareSeries.ts and budget.ts: series in buckets of an
-- hour or a day. An instant is its milliseconds since 1970 (an earlier one is not modelled);
-- `Date.parse`, where none is NaN, and the labels are arguments. The values are whole numbers, none
-- being one that is not finite; sums of floating-point costs are not modelled.
pub mod Axis
pub mod Compare
pub mod Distinct
pub mod Buckets
mod Tests
use Prim.Native.Char.{code}
use Prim.Native.String.{String}
use wai_ai.Common.{
  ℕ, zero, suc, ◌+◌, ◌-◌, ◌*◌, ◌/◌, ◌≡◌, Bool, true, false, Option, none, some, List, [], ◌∷◌, map,
  length, drop, ltb, leb, eqb, or_default, if◌then◌else◌,
}
use wai_ai.Common.Decimal.{is_digit}
use wai_ai.Common.Int.{ℤ, pos, ◌-ℤ◌}
use wai_ai.Common.Text.{append}

pub data Granularity : Type 0 where
  hour day : Granularity

-- `GRANULARITY_MS`
abbrev pub granularity_ms : Granularity → ℕ
granularity_ms hour = 3600000
granularity_ms day = 86400000

-- A `/^…$/` of digits, written `d`, and other characters.
unfoldable pub has_shape : String → String → Bool
has_shape String.[] String.[] = true
has_shape String.[] (String.◌∷◌ c s) = false
has_shape (String.◌∷◌ p ps) String.[] = false
has_shape (String.◌∷◌ p ps) (String.◌∷◌ c s) =
    let rest = has_shape ps s in
    if (if eqb (code p) b'd' then is_digit c else eqb (code p) (code c)) then rest else false

module _ (parse_date : String → Option ℕ) where
  -- `bucketStartMs`
  unfoldable pub bucket_start_ms : String → Option ℕ
  unfolding has_shape append
  bucket_start_ms key =
      if has_shape "dddd-dd-dd" key
      then parse_date (append key "T00:00:00Z")
      else if has_shape "dddd-dd-ddTdd" key
      then parse_date (append key ":00:00Z")
      else parse_date key

-- `floorToBucket`
unfoldable pub floor_to_bucket : ℕ → Granularity → ℕ
floor_to_bucket ms g = ms / granularity_ms g * granularity_ms g

-- `out.push(ms)` before the rest of the loop
unfoldable pub push_before : ℕ → Option (List ℕ) → Option (List ℕ)
push_before ms none = none
push_before ms (some rest) = some (ms ∷ rest)

-- `for (let ms = …; ms < t; ms += size) out.push(ms)`, with fuel; none if that does not suffice.
unfoldable pub bucket_starts : ℕ → ℕ → ℕ → ℕ → Option (List ℕ)
unfolding push_before
bucket_starts zero size ms t = if ltb ms t then none else some []
bucket_starts (suc fuel) size ms t = elim (ltb ms t) [
  | false ↦ some []
  | true ↦ push_before ms (bucket_starts fuel size (ms + size) t)
]

-- `out.length > max ? out.slice(out.length - max) : out`
unfoldable pub newest : ℕ → List ℕ → List ℕ
newest max out = if ltb max (length out) then drop (length out - max) out else out

-- `2000`, the default of `max`
abbrev pub max_buckets : ℕ
max_buckets = 2000

unfoldable pub keep_newest : ℕ → Option (List ℕ) → Option (List ℕ)
unfolding newest
keep_newest max none = none
keep_newest max (some out) = some (newest max out)

-- `buildBucketAxis`, from the parsed ends. A round for each millisecond is more than the loop makes.
unfoldable pub build_bucket_axis : Option ℕ → Option ℕ → Granularity → ℕ → Option (List ℕ)
unfolding bucket_starts keep_newest floor_to_bucket
build_bucket_axis none to g max = some []
build_bucket_axis (some f) none g max = some []
build_bucket_axis (some f) (some t) g max = elim (leb t f) [
  | true ↦ some []
  | false ↦
      let start = floor_to_bucket f g in
      keep_newest max (bucket_starts (t - start) (granularity_ms g) start t)
]

-- `previousWindow`, of the parsed ends; it is followed by `toISOString`.
unfoldable pub previous_window : ℕ → ℕ → ℤ × ℕ
previous_window f t = (pos f -ℤ pos (t - f), f)

-- `{ key, value }`
pub record Point : Type 0 where
  pub key : String
  pub value : Option ℕ

-- `new Map(axis.map((ms, i) => [ms, i]))`: of equal starts the last one counts.
unfoldable pub index_of : ℕ → List ℕ → Option ℕ
index_of x [] = none
index_of x (y ∷ ys) = elim (index_of x ys) [
  | some i ↦ some (suc i)
  | none ↦ if eqb x y then some 0 else none
]

-- `out[i] += v`
unfoldable pub add_at : ℕ → ℕ → List ℕ → List ℕ
add_at i v [] = []
add_at zero v (x ∷ xs) = (x + v) ∷ xs
add_at (suc i) v (x ∷ xs) = x ∷ add_at i v xs

-- `if (i != null) out[i] += …`
unfoldable pub add_if : Option ℕ → ℕ → List ℕ → List ℕ
unfolding add_at
add_if none v out = out
add_if (some i) v out = add_at i v out

-- `axis.map(() => 0)`
abbrev pub zeros : List ℕ → List ℕ
zeros axis = map (λ ms. 0) axis

module _ (parse_date : String → Option ℕ) where
  -- The bucket of a point, shifted by the offset.
  unfoldable pub bucket_of : Granularity → ℕ → Point → Option ℕ
  unfolding floor_to_bucket bucket_start_ms
  bucket_of g offset p = elim (bucket_start_ms parse_date p.key) [
    | none ↦ none
    | some start ↦ some (floor_to_bucket (start + offset) g)
  ]

  -- One round of the loop of `alignToAxis`.
  unfoldable pub add_point : List ℕ → Granularity → ℕ → Point → List ℕ → List ℕ
  unfolding bucket_of index_of add_if
  add_point axis g offset p out = elim (bucket_of g offset p) [
    | none ↦ out
    | some b ↦ add_if (index_of b axis) (or_default p.value 0) out
  ]

  unfoldable pub add_points : List ℕ → Granularity → ℕ → List Point → List ℕ → List ℕ
  unfolding add_point
  add_points axis g offset [] out = out
  add_points axis g offset (p ∷ ps) out =
      add_points axis g offset ps (add_point axis g offset p out)

  -- `alignToAxis`
  unfoldable pub align_to_axis : List ℕ → List Point → Granularity → ℕ → List ℕ
  unfolding add_points
  align_to_axis axis points g offset = add_points axis g offset points (zeros axis)
