-- ===== src/Csv.antt =====
-- ui/src/lib/export.ts: the CSV text of a table. A value comes as the text that `String(value ?? '')`
-- makes of it; the JSON branch, the date in the file's name and the download are not modelled.
pub mod Reader
pub mod Cells
pub mod Tables
mod Tests
use Prim.Native.Char.{Char, code}
use Prim.Native.String.{String}
use wai_ai.Common.{ℕ, Bool, true, false, ◌&&◌, ◌||◌, List, [], ◌∷◌, map, any, eqb, if◌then◌else◌}
use wai_ai.Common.Text.{append, starts_with, includes}

-- `['=', '+', '-', '@', '\t', '\r']`
abbrev pub formula_starts : List String
formula_starts = "=" ∷ "+" ∷ "-" ∷ "@" ∷ "\t" ∷ "\r" ∷ []

-- `s.replace(/"/g, '""')`
unfoldable pub double_quotes : String → String
double_quotes String.[] = String.[]
double_quotes (String.◌∷◌ c s) =
    if eqb (code c) b'"'
    then String.◌∷◌ c (String.◌∷◌ c (double_quotes s))
    else String.◌∷◌ c (double_quotes s)

-- `s = "'" + s`, for a text that a spreadsheet would take for a formula
unfoldable pub defuse : String → String
unfolding append starts_with
defuse s = if any (starts_with s) formula_starts then append "'" s else s

unfoldable pub quote_cell : String → String
unfolding append includes double_quotes
quote_cell s =
    if includes s "," || includes s "\"" || includes s "\n"
    then append "\"" (append (double_quotes s) "\"")
    else s

-- `sanitizeCSVCell`
unfoldable pub sanitize_csv_cell : String → String
unfolding defuse quote_cell
sanitize_csv_cell value = quote_cell (defuse value)

-- `r.join(sep)`
unfoldable pub join : String → List String → String
unfolding append
join sep [] = ""
join sep (s ∷ []) = s
join sep (s ∷ t ∷ ss) = append s (append sep (join sep (t ∷ ss)))

-- The text of `exportData`: a row of labels, and the rows of the table.
unfoldable pub csv_text : List (List String) → String
unfolding join sanitize_csv_cell
csv_text rows = join "\n" (map (λ r. join "," (map sanitize_csv_cell r)) rows)

-- `{ key, label }`
pub record Header : Type 0 where
  pub key : String
  pub label : String

-- `headerRow` and `rows`; a row is a function from keys to the texts of its values.
unfoldable pub table_of : List Header → List (String → String) → List (List String)
table_of headers data_rows =
    map (λ h. h.label) headers ∷ map (λ row. map (λ h. row h.key) headers) data_rows

-- The CSV branch of `exportData`
unfoldable pub export_csv : List Header → List (String → String) → String
unfolding table_of csv_text
export_csv headers data_rows = csv_text (table_of headers data_rows)
