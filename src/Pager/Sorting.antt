-- ===== src/Pager/Sorting.antt =====
-- ui/src/components/members/listState.ts: useClientSort, which sorts the loaded rows by a column. The
-- signs of `av - bv` and of localeCompare, and `String` of a number, are arguments.
use Prim.Native.Nat.{Ordering}
use mathlib.Core.List.{Perm}
use wai_ai.Common.{
  ◌≡◌, ◌≢◌, refl, sym, ap, subst, eq_refl, String, Option, none, some, List, if◌then◌else◌, ◌==◌,
}
use wai_ai.Common.Sort.{Comparator, sort, IsConsistent, IsOrdered}
use wai_ai.Common.Sort.Laws.{sort-perm, sort-IsOrdered}

pub data Direction : Type 0 where
  asc desc : Direction

-- `SortState`
pub record ColumnSort : Type 0 where
  pub column : String
  pub direction : Direction

-- `string | number`
pub data CellValue (Num : Type 0) : Type 0 where
  text : String → CellValue Num
  number : Num → CellValue Num

-- `SortAccessors<T>`
abbrev pub Accessors : Type 0 → Type 0 → Type 0
Accessors Num Row = String → Option (Row → CellValue Num)

-- A sign times -1
abbrev pub negated_sign : Ordering → Ordering
negated_sign Ordering.lt = Ordering.gt
negated_sign Ordering.eq = Ordering.eq
negated_sign Ordering.gt = Ordering.lt

abbrev pub flipped : Direction → Direction
flipped asc = desc
flipped desc = asc

-- `onSort`
unfoldable pub on_sort : String → Option ColumnSort → ColumnSort
on_sort column none = record { column = column; direction = asc }
on_sort column (some prev) = record {
  column = column;
  direction = if prev.column == column then flipped prev.direction else asc;
}

module _ {Num : Type 0} (minus : Num → Num → Ordering) (locale : String → String → Ordering)
    (print : Num → String) where
  abbrev pub shown_value : CellValue Num → String
  shown_value (text s) = s
  shown_value (number n) = print n

  abbrev pub compare_values : CellValue Num → CellValue Num → Ordering
  compare_values (number a) (number b) = minus a b
  compare_values (number a) (text b) = locale (print a) b
  compare_values (text a) (number b) = locale a (print b)
  compare_values (text a) (text b) = locale a b

  abbrev pub in_direction : Direction → Ordering → Ordering
  in_direction asc o = o
  in_direction desc o = negated_sign o

  -- Of two rows, one order is refused at most.
  one_way :
      (d : Direction) (o p : Ordering)
      → p ≡ negated_sign o
      → in_direction d o ≡ Ordering.gt
      → in_direction d p ≢ Ordering.gt
  one_way asc Ordering.lt p e h = cc
  one_way asc Ordering.eq p e h = cc
  one_way asc Ordering.gt p e h = rw e (λ q. cc)
  one_way desc Ordering.lt p e h = rw e (λ q. cc)
  one_way desc Ordering.eq p e h = cc
  one_way desc Ordering.gt p e h = cc

  module _ {Row : Type 0} (get : Row → CellValue Num) (direction : Direction) where
    abbrev pub by_cell : Comparator Row
    by_cell a b = in_direction direction (compare_values (get a) (get b))

    -- A comparison of values whose sign turns as its arguments change places, and that is transitive,
    -- is consistent in both directions.
    by_cell-IsConsistent :
        ((x y : CellValue Num) → compare_values y x ≡ negated_sign (compare_values x y))
        → ((x y z : CellValue Num)
            → compare_values x y ≢ Ordering.gt
            → compare_values y z ≢ Ordering.gt
            → compare_values x z ≢ Ordering.gt)
        → IsConsistent by_cell
    by_cell-IsConsistent turns chain = record {
      flip = λ a b h. one_way direction _ _ (turns (get a) (get b)) h;
      chain = λ a b c. chain_in direction (get a) (get b) (get c);
    }
      where
        chain_in :
            (d : Direction) (x y z : CellValue Num)
            → in_direction d (compare_values x y) ≢ Ordering.gt
            → in_direction d (compare_values y z) ≢ Ordering.gt
            → in_direction d (compare_values x z) ≢ Ordering.gt
        chain_in asc x y z h k = chain x y z h k
        chain_in desc x y z h k =
            subst (λ o. o ≢ Ordering.gt) (turns x z)
              (chain z y x (subst (λ o. o ≢ Ordering.gt) (sym (turns y z)) k)
                (subst (λ o. o ≢ Ordering.gt) (sym (turns x y)) h))

  -- The rows in the order of an accessor, if there is one
  abbrev pub sorted_by :
      {Row : Type 0} → Option (Row → CellValue Num) → Direction → List Row → List Row
  sorted_by none direction rows = rows
  sorted_by (some get) direction rows = sort (by_cell get direction) rows

  -- `sorted`
  unfoldable pub sorted :
      {Row : Type 0} → List Row → Accessors Num Row → Option ColumnSort → List Row
  sorted rows accessors none = rows
  sorted rows accessors (some s) = sorted_by (accessors s.column) s.direction rows

  -- The sorted rows are the loaded ones, in the order of the column in the chosen direction, and another
  -- click on the column turns the direction, if the comparison of values has a sign that turns as its
  -- arguments change places, and is transitive; without a sort, or for a column that cannot be sorted,
  -- the rows are left as they are.
  pub sorted_lem :
      {Row : Type 0} (rows : List Row) (accessors : Accessors Num Row) (s : ColumnSort)
      → ((x y : CellValue Num) → compare_values y x ≡ negated_sign (compare_values x y))
      → ((x y z : CellValue Num)
          → compare_values x y ≢ Ordering.gt
          → compare_values y z ≢ Ordering.gt
          → compare_values x z ≢ Ordering.gt)
      → (sorted rows accessors none ≡ rows)
        × (accessors s.column ≡ none → sorted rows accessors (some s) ≡ rows)
        × ((get : Row → CellValue Num)
            → accessors s.column ≡ some get
            → Perm (sorted rows accessors (some s)) rows
              × IsOrdered (by_cell get s.direction) (sorted rows accessors (some s)))
        × (on_sort s.column (some s)
            ≡ record { column = s.column; direction = flipped s.direction })
  unfolding sorted on_sort
  sorted_lem rows accessors s turns chain = (
    refl,
    (λ e. ap (λ g. sorted_by g s.direction rows) e),
    (λ get e.
        subst
          (λ g.
            Perm (sorted_by g s.direction rows) rows
            × IsOrdered (by_cell get s.direction) (sorted_by g s.direction rows))
          (sym e)
          (
            sort-perm (by_cell get s.direction) rows,
            sort-IsOrdered (by_cell get s.direction)
                (by_cell-IsConsistent get s.direction turns chain) rows,
          )),
    rw (eq_refl s.column) refl,
  )
