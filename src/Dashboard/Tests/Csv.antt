-- ===== src/Dashboard/Tests/Csv.antt =====
-- A table with a comma, a quote and a line break, and its text.
use nfm_dashboard.Prelude.{none, some, List, [], ◌∷◌, ◌++◌, map, ◌≡◌, refl}
use nfm_dashboard.Prelude.Text.{codes, str_discrete}
use nfm_dashboard.Prelude.Map.{get}
use nfm_dashboard.Dashboard.Csv.{
  CsvColumn, Row, columns_of, table_text, to_csv, join, cell_of, escape_cell, has_special,
  is_special, doubled,
}
use nfm_dashboard.Dashboard.Csv.Reader.{read_csv}
use nfm_dashboard.Dashboard.Csv.Read.{text_of, read_csv-to_csv}

abbrev rows : List Row
rows =
    ((codes "a", some (codes "x,y")) ∷ (codes "b", none) ∷ [])
    ∷ ((codes "b", some (codes "say \"hi\"")) ∷ (codes "a", some (13 ∷ 10 ∷ [])) ∷ [])
    ∷ []

abbrev columns : List CsvColumn
columns =
    record { key = codes "a"; header = codes "A" }
    ∷ record { key = codes "b"; header = codes "B,2" }
    ∷ []

rows_text :
    to_csv rows none
    ≡ codes "a,b"
      ++ 13 ∷ 10 ∷ codes "\"x,y\","
      ++ 13 ∷ 10 ∷ 34 ∷ 13 ∷ 10 ∷ codes "\",\"say \"\"hi\"\"\""
unfolding to_csv columns_of table_text join cell_of escape_cell has_special is_special doubled get
    str_discrete
rows_text = refl

read_csv-to_csv_example :
    read_csv (to_csv rows (some columns))
    ≡ some ((codes "A" ∷ codes "B,2" ∷ []) ∷ map (λ row. map (text_of row) columns) rows)
unfolding columns_of
read_csv-to_csv_example = read_csv-to_csv rows (some columns) (λ e. cc)
