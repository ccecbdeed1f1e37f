-- ===== src/Csv/Tests.antt =====
-- An export of two rows.
use wai_ai.Common.{◌≡◌, refl, String, some, List, [], ◌∷◌, map, All, if◌then◌else◌, ◌==◌}
use wai_ai.Csv.{defuse, sanitize_csv_cell, Header, table_of, export_csv}
use wai_ai.Csv.Reader.{read_table}
use wai_ai.Csv.Tables.{IsHarmless, read_table-export_csv}

abbrev headers : List Header
headers =
    record { key = "name"; label = "Name" } ∷ record { key = "cost"; label = "Cost, USD" } ∷ []

abbrev rows : List (String → String)
rows =
    (λ key. if key == "name" then "=SUM(A1)" else "12.5")
    ∷ (λ key. if key == "name" then "the \"big\" one" else "-3")
    ∷ []

formula : sanitize_csv_cell "=1+1" ≡ "'=1+1"
unfolding sanitize_csv_cell
formula = refl

text : export_csv headers rows ≡ "Name,\"Cost, USD\"\n'=SUM(A1),12.5\n\"the \"\"big\"\" one\",'-3"
unfolding export_csv
text = refl

read_table-export_csv_example :
    (read_table (export_csv headers rows) ≡ some (map (map defuse) (table_of headers rows)))
    × All (All IsHarmless) (map (map defuse) (table_of headers rows))
read_table-export_csv_example = read_table-export_csv headers rows (λ e. cc)
