-- ===== src/Keys/Listing.antt =====
-- What the list of keys shows, and in which order.
use wai_ai.Common.{
  String, ◌≡◌, ◌↔◌, ◌⊎◌, Bool, true, false, Option, none, some, List, arith, filter, Listed,
  Listed-filter, refl,
}
use mathlib.Core.List.{Perm}
use wai_ai.Common.Int.{ℤ, ltb_ℤ-IsStrictOrder}
use wai_ai.Common.Text.{truthy, needle, contains}
use wai_ai.Common.Text.Order.{text_lt-IsStrictOrder}
use wai_ai.Common.Sort.{Comparator, compare_by, IsStrictOrder, IsOrdered}
use wai_ai.Common.Sort.Laws.{
  sort-perm, sort-stable, sort-IsOrdered, compare_by-IsConsistent, compare_by-ne_gt,
  compare_by-ne_gt,
}
use wai_ai.Keys.{
  ApiKey, every, only, FilterOptions, OwnerContext, KeySort, KeySortColumn, is_asc, name, key_type,
  owner, status, expires_at, last_used_at, created_at, value_lt, value, key_status, key_owner_label,
  key_passes, filter_keys, sort_keys,
}

-- The search box is blank, or its text is in the name, the hint or the owner's label.
abbrev pub FoundBy : (String → String) → FilterOptions → ApiKey → Type 0
FoundBy lower opts k =
    (truthy (needle lower opts.query) ≡ false)
    ⊎ (contains lower (needle lower opts.query) (some k.name) ≡ true)
    ⊎ (contains lower (needle lower opts.query) (some k.key_hint) ≡ true)
    ⊎ (contains lower (needle lower opts.query) (some (key_owner_label k opts.owner)) ≡ true)

key_passes_iff :
    (lower : String → String) (parse_date : String → Option ℤ) (opts : FilterOptions) (k : ApiKey)
    → (key_passes lower parse_date opts k ≡ true) ↔ (
        ((opts.status ≡ every) ⊎ (opts.status ≡ only (key_status parse_date k opts.now)))
        × FoundBy lower opts k)
unfolding key_passes
key_passes_iff lower parse_date opts k = ground arith

-- A key is shown exactly when it is in the list, has the chosen status (or none is chosen), and is
-- found by the search.
pub filter_keys_iff :
    (lower : String → String) (parse_date : String → Option ℤ) (keys : List ApiKey)
    (opts : FilterOptions) (k : ApiKey)
    → Listed k (filter_keys lower parse_date keys opts) ↔ (
        Listed k keys
        × ((opts.status ≡ every) ⊎ (opts.status ≡ only (key_status parse_date k opts.now)))
        × FoundBy lower opts k)
unfolding filter_keys
filter_keys_iff lower parse_date keys opts k = ground (
  arith,
  Listed-filter (key_passes lower parse_date opts) k keys,
  key_passes_iff lower parse_date opts k,
)

value_lt-IsStrictOrder : (c : KeySortColumn) → IsStrictOrder (value_lt c)
value_lt-IsStrictOrder name = text_lt-IsStrictOrder
value_lt-IsStrictOrder key_type = text_lt-IsStrictOrder
value_lt-IsStrictOrder owner = text_lt-IsStrictOrder
value_lt-IsStrictOrder status = ltb_ℤ-IsStrictOrder
value_lt-IsStrictOrder expires_at = ltb_ℤ-IsStrictOrder
value_lt-IsStrictOrder last_used_at = ltb_ℤ-IsStrictOrder
value_lt-IsStrictOrder created_at = ltb_ℤ-IsStrictOrder

module _ (lower : String → String) (parse_date : String → Option ℤ) (ctx : OwnerContext) (now : ℤ)
    (keys : List ApiKey) (s : KeySort) where
  abbrev pub by_column : Comparator ApiKey
  by_column =
      compare_by (value_lt s.column) (value lower parse_date ctx now s.column) (is_asc s.direction)

  -- Sorting keeps the keys and puts them in the order of the column, in the chosen direction; with
  -- no sort chosen the list is unchanged.
  pub sort_keys_lem :
      Perm (sort_keys lower parse_date ctx now keys (some s)) keys
      × IsOrdered by_column (sort_keys lower parse_date ctx now keys (some s))
      × (sort_keys lower parse_date ctx now keys none ≡ keys)
  unfolding sort_keys
  sort_keys_lem = (
    sort-perm by_column keys,
    sort-IsOrdered by_column
        (compare_by-IsConsistent (value_lt s.column) (value_lt-IsStrictOrder s.column) _ _) keys,
    refl,
  )

  -- Keys with equal values in the column stay in the order in which they came, in either direction.
  pub sort_keys_stable :
      (p : ApiKey → Bool)
      → ((a b : ApiKey)
          → p a ≡ true
          → p b ≡ true
          → value lower parse_date ctx now s.column a ≡ value lower parse_date ctx now s.column b)
      → filter p (sort_keys lower parse_date ctx now keys (some s)) ≡ filter p keys
  unfolding sort_keys
  sort_keys_stable p same =
      sort-stable by_column p
        (λ a b pa pb.
          compare_by-ne_gt (value_lt s.column) (value_lt-IsStrictOrder s.column)
            (value lower parse_date ctx now s.column) (is_asc s.direction) a b (same a b pa pb))
        keys
