-- ===== src/Dashboard/Csv/Read.antt =====
-- What the reader makes of the text of `to_csv`.
use nfm_dashboard.Prelude.{
  ℕ, Option, none, some, List, [], ◌∷◌, ◌++◌, map, true, ◌≡◌, ◌≢◌, inl, inr, refl, ap, ◌∙◌, All,
  Option-cases,
}
use mathlib.Core.List.{append_assoc}
use mathlib.Core.Path.{ap₂}
use nfm_dashboard.Prelude.Text.{Str, str_discrete}
use nfm_dashboard.Prelude.Map.{get}
use nfm_dashboard.Dashboard.Csv.{
  CsvColumn, Row, carriage_return, line_feed, comma, has_special, escape_cell, join, cell_of,
  columns_of, table_text, to_csv,
}
use nfm_dashboard.Dashboard.Csv.Reader.{
  Mode, is_open, finished, run, start, reader, read_csv, run-append, run-escape_cell, run-comma,
  run-crlf,
}

join-cons :
    (separator s t : Str) (texts : List Str)
    → join separator (s ∷ t ∷ texts) ≡ s ++ separator ++ join separator (t ∷ texts)
unfolding join
join-cons separator s t texts = refl

one_append : (c : ℕ) (s x : Str) → s ++ (c ∷ []) ++ x ≡ s ++ c ∷ x
one_append c s x = append_assoc s (c ∷ []) x

two_append : (c d : ℕ) (s x : Str) → s ++ (c ∷ d ∷ []) ++ x ≡ s ++ c ∷ d ∷ x
two_append c d s x = append_assoc s (c ∷ d ∷ []) x

join-one : (separator s : Str) → join separator (s ∷ []) ≡ s
unfolding join
join-one separator s = refl

-- The cells of a record are read back.
run-join :
    (s : Str) (texts : List Str) (fs : List Str) (rs : List (List Str))
    → (m : Mode) × (f : Str) × (done : List Str) × (is_open m ≡ true)
      × (run (start rs fs) (join (comma ∷ []) (map escape_cell (s ∷ texts))) ≡ reader m f done rs)
      × (done ++ f ∷ [] ≡ fs ++ s ∷ texts)
run-join s [] fs rs =
    let (m, h, e) = run-escape_cell s fs rs in
    (m, s, fs, h, ap (run (start rs fs)) (join-one (comma ∷ []) (escape_cell s)) ∙ e, refl)
run-join s (t ∷ texts) fs rs =
    let (m, h, e) = run-escape_cell s fs rs in
    let (m', f, done, h', e', all) = run-join t texts (fs ++ s ∷ []) rs in
    let rest = join (comma ∷ []) (map escape_cell (t ∷ texts)) in
    (
      m',
      f,
      done,
      h',
      ap (run (start rs fs)) (
            join-cons (comma ∷ []) (escape_cell s) (escape_cell t) (map escape_cell texts)
            ∙ one_append comma (escape_cell s) rest)
          ∙ run-append (start rs fs) (escape_cell s) (comma ∷ rest)
          ∙ ap (λ r. run r (comma ∷ rest)) e
          ∙ run-comma m s fs rs rest h
          ∙ e',
      all ∙ append_assoc fs (s ∷ []) (t ∷ texts),
    )

-- The line of a record with at least one field.
abbrev line_of : List Str → Str
line_of fields = join (comma ∷ []) (map escape_cell fields)

-- Lines of records are read back.
finished-open :
    (m : Mode) (f : Str) (fs : List Str) (rs : List (List Str))
    → is_open m ≡ true
    → finished (reader m f fs rs) ≡ some (rs ++ (fs ++ f ∷ []) ∷ [])
finished-open m f fs rs h = rw h refl

read_lines :
    (first : List Str) (more : List (List Str)) (rs : List (List Str))
    → All (λ fields. fields ≢ []) (first ∷ more)
    → finished
        (run (start rs []) (join (carriage_return ∷ line_feed ∷ []) (map line_of (first ∷ more))))
      ≡ some (rs ++ first ∷ more)
read_lines [] more rs (h, rest) = elim (h refl) [ ]
read_lines (s ∷ texts) [] rs (h, rest) =
    let (m, f, done, o, e, all) = run-join s texts [] rs in
    ap (λ text. finished (run (start rs []) text))
      (join-one (carriage_return ∷ line_feed ∷ []) (line_of (s ∷ texts)))
    ∙ ap finished e
    ∙ finished-open m f done rs o
    ∙ ap (λ fields. some (rs ++ fields ∷ [])) all
read_lines (s ∷ texts) (next ∷ more) rs (h, rest) =
    let (m, f, done, o, e, all) = run-join s texts [] rs in
    let lines = join (carriage_return ∷ line_feed ∷ []) (map line_of (next ∷ more)) in
    let r =
      ap (run (start rs [])) (
        join-cons (carriage_return ∷ line_feed ∷ []) (line_of (s ∷ texts)) (line_of next)
          (map line_of more)
        ∙ two_append carriage_return line_feed (line_of (s ∷ texts)) lines)
      ∙ run-append (start rs []) (line_of (s ∷ texts)) (carriage_return ∷ line_feed ∷ lines)
      ∙ ap (λ r. run r (carriage_return ∷ line_feed ∷ lines)) e
      ∙ run-crlf m f done rs lines o
      ∙ ap (λ fields. run (start (rs ++ fields ∷ []) []) lines) all in
    ap finished r
    ∙ read_lines next more (rs ++ (s ∷ texts) ∷ []) rest
    ∙ ap some (append_assoc rs ((s ∷ texts) ∷ []) (next ∷ more))

-- The text of `row[key]`, which is empty for null and undefined.
unfoldable pub text_of : Row → CsvColumn → Str
text_of row column = elim (get str_discrete column.key row) [
  | none ↦ []
  | some v ↦ elim v [ none ↦ [] | some s ↦ s ]
]

cell_of-text_of : (row : Row) (c : CsvColumn) → cell_of row c ≡ escape_cell (text_of row c)
unfolding cell_of text_of escape_cell has_special
cell_of-text_of row c = elim (Option-cases (get str_discrete c.key row)) [
  | inl e ↦ rw (e, cell_of, text_of) refl
  | inr (v, e) ↦ elim (Option-cases v) [
    | inl e' ↦ rw (e, e', cell_of, text_of) refl
    | inr (s, e') ↦ rw (e, e', cell_of, text_of) refl
  ]
]

map-cells :
    (row : Row) (columns : List CsvColumn)
    → map (cell_of row) columns ≡ map escape_cell (map (text_of row) columns)
map-cells row [] = refl
map-cells row (c ∷ columns) = ap₂ ◌∷◌ (cell_of-text_of row c) (map-cells row columns)

map-headers :
    (columns : List CsvColumn)
    → map (λ c. escape_cell c.header) columns ≡ map escape_cell (map (λ c. c.header) columns)
map-headers [] = refl
map-headers (c ∷ columns) = ap (◌∷◌ (escape_cell c.header)) (map-headers columns)

map-lines :
    (rows : List Row) (columns : List CsvColumn)
    → map (λ row. join (comma ∷ []) (map (cell_of row) columns)) rows
      ≡ map line_of (map (λ row. map (text_of row) columns) rows)
map-lines [] columns = refl
map-lines (row ∷ rows) columns =
    ap₂ ◌∷◌ (ap (join (comma ∷ [])) (map-cells row columns)) (map-lines rows columns)

rows-All :
    (rows : List Row) (c : CsvColumn) (columns : List CsvColumn)
    → All (λ fields. fields ≢ []) (map (λ row. map (text_of row) (c ∷ columns)) rows)
rows-All [] c columns = tt
rows-All (row ∷ rows) c columns = ((λ e. cc), rows-All rows c columns)

read_csv-table_text :
    (columns : List CsvColumn) (rows : List Row)
    → columns ≢ []
    → read_csv (table_text columns rows)
      ≡ some (map (λ c. c.header) columns ∷ map (λ row. map (text_of row) columns) rows)
unfolding read_csv table_text
read_csv-table_text [] rows h = elim (h refl) [ ]
read_csv-table_text (c ∷ columns) rows h =
    let all = c ∷ columns in
    let texts = ap₂ ◌∷◌ (ap (join (comma ∷ [])) (map-headers all)) (map-lines rows all) in
    let same =
      ap (λ lines. finished (run (start [] []) (join (carriage_return ∷ line_feed ∷ []) lines)))
        texts in
    same
    ∙ read_lines (map (λ c. c.header) all) (map (λ row. map (text_of row) all) rows) []
        ((λ e. cc), rows-All rows c columns)

-- Where there is a column, the exported text is allowed by the grammar of RFC 4180, with every character
-- but commas, quotes, carriage returns and line feeds taken for text, and a reader makes of it the record
-- of the headers and one record for each row, with the texts of its cells in the order of the columns:
-- whatever commas, quotes, carriage returns and line feeds the texts hold.
pub read_csv-to_csv :
    (rows : List Row) (given : Option (List CsvColumn))
    → columns_of rows given ≢ []
    → let columns = columns_of rows given in
      read_csv (to_csv rows given)
      ≡ some (map (λ c. c.header) columns ∷ map (λ row. map (text_of row) columns) rows)
unfolding to_csv
read_csv-to_csv rows given = read_csv-table_text (columns_of rows given) rows
