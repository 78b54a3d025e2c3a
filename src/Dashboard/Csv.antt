-- ===== src/Dashboard/Csv.antt =====
-- The text of the exported tables: toCsv of app/src/lib/csv.ts. A row lists its own keys, in the order of
-- `Object.keys`, with what `String` makes of their values; null and undefined are `none`.
pub mod Reader
pub mod Read
use nfm_dashboard.Prelude.{
  ℕ, Option, none, some, List, [], ◌∷◌, ◌++◌, map, Bool, true, false, ◌==◌, ◌||◌, if◌then◌else◌,
}
use nfm_dashboard.Prelude.Text.{Str, str_discrete}
use nfm_dashboard.Prelude.Map.{get}

pub record CsvColumn : Type 0 where
  pub key : Str
  pub header : Str

abbrev pub Row : Type 0
Row = List (Str × Option Str)

abbrev pub carriage_return : ℕ
carriage_return = 13

abbrev pub line_feed : ℕ
line_feed = 10

abbrev pub comma : ℕ
comma = b','

abbrev pub quote : ℕ
quote = b'"'

-- `/[",\r\n]/`, at one character
unfoldable pub is_special : ℕ → Bool
is_special c = c == quote || c == comma || c == carriage_return || c == line_feed

-- `/[",\r\n]/.test(s)`
unfoldable pub has_special : Str → Bool
unfolding is_special
has_special [] = false
has_special (c ∷ s) = is_special c || has_special s

-- `s.replaceAll('"', '""')`
unfoldable pub doubled : Str → Str
doubled [] = []
doubled (c ∷ s) = let rest = doubled s in if c == quote then quote ∷ quote ∷ rest else c ∷ rest

unfoldable pub escape_cell : Str → Str
unfolding has_special doubled
escape_cell s = if has_special s then quote ∷ doubled s ++ quote ∷ [] else s

-- `texts.join(separator)`
unfoldable pub join : Str → List Str → Str
join separator [] = []
join separator (s ∷ []) = s
join separator (s ∷ t ∷ texts) = s ++ separator ++ join separator (t ∷ texts)

-- `cellOf(row[key])`
unfoldable pub cell_of : Row → CsvColumn → Str
unfolding escape_cell
cell_of row column = elim (get str_discrete column.key row) [
  | none ↦ []
  | some v ↦ elim v [ none ↦ [] | some s ↦ escape_cell s ]
]

-- The columns that are given, or the keys of the first row.
unfoldable pub columns_of : List Row → Option (List CsvColumn) → List CsvColumn
columns_of rows (some columns) = columns
columns_of [] none = []
columns_of (row ∷ rows) none = map (λ e. record { key = e.0; header = e.0 }) row

-- The lines of the headers and of the rows.
unfoldable pub table_text : List CsvColumn → List Row → Str
unfolding join cell_of escape_cell
table_text [] rows = []
table_text (column ∷ more) rows =
    let columns = column ∷ more in
    join (carriage_return ∷ line_feed ∷ []) (
      join (comma ∷ []) (map (λ c. escape_cell c.header) columns)
      ∷ map (λ row. join (comma ∷ []) (map (cell_of row) columns)) rows)

unfoldable pub to_csv : List Row → Option (List CsvColumn) → Str
unfolding columns_of table_text
to_csv rows given = table_text (columns_of rows given) rows
