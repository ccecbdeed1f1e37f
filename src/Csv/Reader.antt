-- ===== src/Csv/Reader.antt =====
-- A reader of CSV as RFC 4180 describes it, with a line feed between the records: what a text means.
use Prim.Native.Char.{Char, code}
use Prim.Native.String.{String}
use wai_ai.Common.{Option, none, some, List, [], ◌∷◌, eqb, if◌then◌else◌}

-- Where the reader stands: at the start of a field, within a bare field, within quotes, or behind a
-- quote within quotes.
pub data Mode : Type 0 where
  start bare quoted after_quote : Mode

-- What the rest of a text holds: the rest of the field, the other fields of the record, and the other
-- records.
pub record Rest : Type 0 where
  pub field : String
  pub row : List String
  pub table : List (List String)

abbrev pub full : Rest → List (List String)
full r = (r.field ∷ r.row) ∷ r.table

unfoldable pub on_rest {ℓ} : {A : Type ℓ} → (Rest → A) → Option Rest → Option A
on_rest f none = none
on_rest f (some r) = some (f r)

abbrev pub put : Char → Rest → Rest
put c r = record r { field = String.◌∷◌ c r.field }

-- Behind a comma a field begins, behind a line feed a record.
abbrev pub new_field : Rest → Rest
new_field r = record r { field = ""; row = r.field ∷ r.row }

abbrev pub new_row : Rest → Rest
new_row r = record { field = ""; row = []; table = full r }

-- The end of the text
unfoldable pub at_end : Mode → Option Rest
at_end quoted = none
at_end _ = some (record { field = ""; row = []; table = [] })

-- A quote within a bare field, and another character than a quote or a separator behind the closing
-- quote, are errors.
unfoldable pub read : Mode → String → Option Rest
unfolding on_rest at_end
read m String.[] = at_end m
read start (String.◌∷◌ c s) =
    if eqb (code c) b'"'
    then read quoted s
    else if eqb (code c) b','
    then on_rest new_field (read start s)
    else if eqb (code c) 10
    then on_rest new_row (read start s)
    else on_rest (put c) (read bare s)
read bare (String.◌∷◌ c s) =
    if eqb (code c) b'"'
    then none
    else if eqb (code c) b','
    then on_rest new_field (read start s)
    else if eqb (code c) 10
    then on_rest new_row (read start s)
    else on_rest (put c) (read bare s)
read quoted (String.◌∷◌ c s) =
    if eqb (code c) b'"' then read after_quote s else on_rest (put c) (read quoted s)
read after_quote (String.◌∷◌ c s) =
    if eqb (code c) b'"'
    then on_rest (put c) (read quoted s)
    else if eqb (code c) b','
    then on_rest new_field (read start s)
    else if eqb (code c) 10
    then on_rest new_row (read start s)
    else none

-- The records of a text
unfoldable pub read_table : String → Option (List (List String))
unfolding on_rest read
read_table s = on_rest full (read start s)
