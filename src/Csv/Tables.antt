-- ===== src/Csv/Tables.antt =====
-- What a reader makes of the text of a table.
use Prim.Native.String.{String}
use wai_ai.Common.{◌≡◌, ◌≢◌, refl, ap, sym, ◌∙◌, false, some, List, [], ◌∷◌, map, any, All}
use wai_ai.Common.Text.{append, starts_with}
use wai_ai.Common.Text.Prefix.{append_assoc, append-nil}
use wai_ai.Csv.{
  defuse, sanitize_csv_cell, join, csv_text, Header, table_of, export_csv, formula_starts,
}
use wai_ai.Csv.Reader.{start, Rest, full, on_rest, new_field, new_row, read, read_table}
use wai_ai.Csv.Cells.{Ends, before_rest, read-quote_cell, defuse-formula}

abbrev cells_text : List String → String
cells_text r = join "," (map sanitize_csv_cell r)

comma-Ends : (u : String) → Ends (append "," u)
unfolding read append
comma-Ends u = (refl, refl)

line_feed-Ends : (u : String) → Ends (append "\n" u)
unfolding read append
line_feed-Ends u = (refl, refl)

read-comma :
    (u : String) (r : Rest) → read start u ≡ some r → read start (append "," u) ≡ some (new_field r)
unfolding read append
read-comma u r h = ap (on_rest new_field) h

read-line_feed :
    (u : String) (r : Rest) → read start u ≡ some r → read start (append "\n" u) ≡ some (new_row r)
unfolding read append
read-line_feed u r h = ap (on_rest new_row) h

-- One cell, and what follows it.
read-cell :
    (c t : String) (row : List String) (table : List (List String))
    → Ends t
    → read start t ≡ some (record { field = ""; row = row; table = table })
    → read start (append (sanitize_csv_cell c) t)
      ≡ some (record { field = defuse c; row = row; table = table })
unfolding sanitize_csv_cell on_rest
read-cell c t row table e h =
    read-quote_cell (defuse c) t e
    ∙ ap (on_rest (before_rest (defuse c))) h
    ∙ ap (λ f. some (record { field = f; row = row; table = table })) (append-nil (defuse c))

-- The cells of a record are read as they were defused, and the records after it.
read-cells :
    (c : String) (cs : List String) (t : String) (table : List (List String))
    → Ends t
    → read start t ≡ some (record { field = ""; row = []; table = table })
    → read start (append (cells_text (c ∷ cs)) t)
      ≡ some (record { field = defuse c; row = map defuse cs; table = table })
unfolding join
read-cells c [] t table e h = read-cell c t [] table e h
read-cells c (d ∷ cs) t table e h =
    let u = append (cells_text (d ∷ cs)) t in
    ap (read start) (
      append_assoc (sanitize_csv_cell c) (append "," (cells_text (d ∷ cs))) t
      ∙ ap (append (sanitize_csv_cell c)) (append_assoc "," (cells_text (d ∷ cs)) t))
    ∙ read-cell c (append "," u) (map defuse (d ∷ cs)) table (comma-Ends u)
        (read-comma u _ (read-cells d cs t table e h))

-- A record with at least one cell.
abbrev pub HasCells : List String → Type 0
HasCells r = r ≢ []

end-Ends : Ends ""
unfolding read
end-Ends = (refl, refl)

read-end : read start "" ≡ some (record { field = ""; row = []; table = [] })
unfolding read
read-end = refl

read-rows :
    (c : String) (cs : List String) (rows : List (List String))
    → All HasCells rows
    → read start (csv_text ((c ∷ cs) ∷ rows))
      ≡ some (record { field = defuse c; row = map defuse cs; table = map (map defuse) rows })
unfolding csv_text
read-rows c cs [] h =
    ap (read start) (sym (append-nil (cells_text (c ∷ cs))))
    ∙ read-cells c cs "" [] end-Ends read-end
read-rows c cs ([] ∷ rows) (h, k) = absurd (h refl)
read-rows c cs ((d ∷ ds) ∷ rows) (h, k) =
    let u = csv_text ((d ∷ ds) ∷ rows) in
    read-cells c cs (append "\n" u) _ (line_feed-Ends u)
      (read-line_feed u _ (read-rows d ds rows k))

-- A cell that does not begin like a formula.
abbrev pub IsHarmless : String → Type 0
IsHarmless c = any (starts_with c) formula_starts ≡ false

-- The text of a table with a cell in each record is read back record by record and cell by cell, except
-- that a cell which begins like a formula has an apostrophe before it; none begins like one any more.
read_table-csv_text :
    (r : List String) (rows : List (List String))
    → r ≢ []
    → All HasCells rows
    → (read_table (csv_text (r ∷ rows)) ≡ some (map (map defuse) (r ∷ rows)))
      × All (All IsHarmless) (map (map defuse) (r ∷ rows))
unfolding read_table on_rest
read_table-csv_text [] rows h k = absurd (h refl)
read_table-csv_text (c ∷ cs) rows h k =
    (ap (on_rest full) (read-rows c cs rows k), harmless_rows ((c ∷ cs) ∷ rows))
  where
    harmless : (r : List String) → All IsHarmless (map defuse r)
    harmless [] = tt
    harmless (c ∷ cs) = (defuse-formula c, harmless cs)

    harmless_rows : (rs : List (List String)) → All (All IsHarmless) (map (map defuse) rs)
    harmless_rows [] = tt
    harmless_rows (r ∷ rs) = (harmless r, harmless_rows rs)

All-have_cells :
    (h : Header) (hs : List Header) (rows : List (String → String))
    → All HasCells (map (λ row. map (λ k. row k.key) (h ∷ hs)) rows)
All-have_cells h hs [] = tt
All-have_cells h hs (row ∷ rows) = (λ e. cc, All-have_cells h hs rows)

-- An export with at least one column is read back record by record and cell by cell, the labels
-- first, except that a cell which begins like a formula has an apostrophe before it; and no cell
-- begins like one any more.
pub read_table-export_csv :
    (headers : List Header) (rows : List (String → String))
    → headers ≢ []
    → (read_table (export_csv headers rows) ≡ some (map (map defuse) (table_of headers rows)))
      × All (All IsHarmless) (map (map defuse) (table_of headers rows))
unfolding export_csv table_of
read_table-export_csv [] rows h = absurd (h refl)
read_table-export_csv (h ∷ hs) rows n =
    read_table-csv_text (map (λ k. k.label) (h ∷ hs)) _ (λ e. cc) (All-have_cells h hs rows)
