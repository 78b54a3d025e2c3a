-- ===== src/Dashboard/Csv/Reader.antt =====
-- A reader of comma-separated text by the grammar of RFC 4180, one character at a time. A field without
-- quotes holds no quote (34), comma (44), carriage return (13) or line feed (10); the other characters
-- that the grammar's TEXTDATA leaves out are let through. A line break is a carriage return with a line
-- feed; text that the grammar does not allow is refused.
use nfm_dashboard.Prelude.{
  ℕ, Option, none, some, List, [], ◌∷◌, ◌++◌, Bool, true, false, ◌==◌, ◌||◌, if◌then◌else◌, ◌≡◌,
  inl, inr, refl, sym, ap, ◌∙◌, arith, Bool-cases,
}
use mathlib.Core.List.{append-nil, append_assoc}
use nfm_dashboard.Prelude.Text.{Str}
use nfm_dashboard.Dashboard.Csv.{
  carriage_return, line_feed, comma, quote, is_special, has_special, doubled, escape_cell,
}

-- Where a reader stands: at the start of a field, in one without quotes or in one with quotes, at a
-- quote in that one, at a carriage return after a field, and after a character that is not allowed.
pub data Mode : Type 0 where
  begin plain quoted closing returned refused : Mode

-- A reader: its mode, the field and the record that it is in, and the records before.
pub record Reader : Type 0 where
  pub mode : Mode
  pub field : Str
  pub fields : List Str
  pub records : List (List Str)

abbrev with_mode : Mode → Reader → ℕ → Reader
with_mode m r c = record r { mode = m; field = r.field ++ c ∷ [] }

abbrev ends_field : Reader → Reader
ends_field r = record {
  mode = begin;
  field = [];
  fields = r.fields ++ r.field ∷ [];
  records = r.records;
}

abbrev all_records : Reader → List (List Str)
all_records r = r.records ++ (r.fields ++ r.field ∷ []) ∷ []

abbrev ends_record : Reader → Reader
ends_record r = record { mode = begin; field = []; fields = []; records = all_records r }

-- A character that ends a field; `other` is the reader after any other one.
abbrev ends_plain : Reader → ℕ → Reader → Reader
ends_plain r c other =
    if c == 44 then ends_field r else if c == 13 then record r { mode = returned } else other

-- A character of a field without quotes.
abbrev reads_plain : Reader → ℕ → Reader
reads_plain r c =
    ends_plain r c (if c == 34 || c == 10 then record r { mode = refused } else with_mode plain r c)

unfoldable reads : Mode → Reader → ℕ → Reader
reads begin r c = if c == 34 then record r { mode = quoted } else reads_plain r c
reads plain r c = reads_plain r c
reads quoted r c = if c == 34 then record r { mode = closing } else with_mode quoted r c
reads closing r c =
    if c == 34 then with_mode quoted r c else ends_plain r c (record r { mode = refused })
reads returned r c = if c == 10 then ends_record r else record r { mode = refused }
reads refused r c = r

unfoldable pub run : Reader → Str → Reader
unfolding reads
run r [] = r
run r (c ∷ s) = run (reads r.mode r c) s

abbrev pub start : List (List Str) → List Str → Reader
start records fields = record { mode = begin; field = []; fields = fields; records = records }

-- The modes in which a field can end.
abbrev pub is_open : Mode → Bool
is_open quoted = false
is_open returned = false
is_open refused = false
is_open _ = true

-- The records, where the text can end there.
abbrev pub finished : Reader → Option (List (List Str))
finished r = if is_open r.mode then some (all_records r) else none

unfoldable pub read_csv : Str → Option (List (List Str))
unfolding run
read_csv s = finished (run (start [] []) s)

pub run-append : (r : Reader) (s t : Str) → run r (s ++ t) ≡ run (run r s) t
unfolding run
run-append r [] t = refl
run-append r (c ∷ s) t = run-append (reads r.mode r c) s t

abbrev pub reader : Mode → Str → List Str → List (List Str) → Reader
reader m f fs rs = record { mode = m; field = f; fields = fs; records = rs }

-- Text without a special character is read as it is.
run-plain :
    (f s : Str) (fs : List Str) (rs : List (List Str))
    → has_special s ≡ false
    → run (reader plain f fs rs) s ≡ reader plain (f ++ s) fs rs
unfolding run reads has_special is_special
run-plain f [] fs rs h = ap (λ x. reader plain x fs rs) (sym (append-nil f))
run-plain f (c ∷ s) fs rs h =
    let h0 : (c == quote) ≡ false = ground (arith, h) in
    let h1 : (c == comma) ≡ false = ground (arith, h) in
    let h2 : (c == carriage_return) ≡ false = ground (arith, h) in
    let h4 : (c == line_feed) ≡ false = ground (arith, h) in
    let h3 : has_special s ≡ false = ground (arith, h) in
    rw (h0, h1, h2, h4)
      (run-plain (f ++ c ∷ []) s fs rs h3
        ∙ ap (λ x. reader plain x fs rs) (append_assoc f (c ∷ []) s))

-- Text with doubled quotes is read back within the quotes.
run-doubled :
    (f s : Str) (fs : List Str) (rs : List (List Str))
    → run (reader quoted f fs rs) (doubled s) ≡ reader quoted (f ++ s) fs rs
unfolding run reads doubled
run-doubled f [] fs rs = ap (λ x. reader quoted x fs rs) (sym (append-nil f))
run-doubled f (c ∷ s) fs rs =
    let next = run-doubled (f ++ c ∷ []) s fs rs in
    let same = ap (λ x. reader quoted x fs rs) (append_assoc f (c ∷ []) s) in
    elim (Bool-cases (c == quote)) [
      | inl b ↦
          let e : c ≡ quote = ground (arith, b) in
          let next = run-doubled (f ++ quote ∷ []) s fs rs in
          let same = ap (λ x. reader quoted x fs rs) (append_assoc f (quote ∷ []) s) in
          rw (b, e) (next ∙ same)
      | inr b ↦
          let d : doubled (c ∷ s) ≡ c ∷ doubled s = rw b refl in
          let step : reads quoted (reader quoted f fs rs) c ≡ reader quoted (f ++ c ∷ []) fs rs =
            rw b refl in
          ap (run (reader quoted f fs rs)) d ∙ ap (λ r. run r (doubled s)) step ∙ next ∙ same
    ]

-- A cell is read back, up to a mode in which it can end.
pub run-escape_cell :
    (s : Str) (fs : List Str) (rs : List (List Str))
    → (m : Mode) × (is_open m ≡ true) × (run (start rs fs) (escape_cell s) ≡ reader m s fs rs)
unfolding escape_cell has_special is_special run reads
run-escape_cell [] fs rs = (begin, refl, refl)
run-escape_cell (c ∷ s) fs rs = elim (Bool-cases (has_special (c ∷ s))) [
  | inl b ↦
      let e =
        run-append (reader quoted [] fs rs) (doubled (c ∷ s)) (quote ∷ [])
        ∙ ap (λ r. run r (quote ∷ [])) (run-doubled [] (c ∷ s) fs rs) in
      (closing, refl, rw b e)
  | inr b ↦
      let h1 : (c == quote) ≡ false = ground (arith, b) in
      let h2 : (c == comma) ≡ false = ground (arith, b) in
      let h3 : (c == carriage_return) ≡ false = ground (arith, b) in
      let h5 : (c == line_feed) ≡ false = ground (arith, b) in
      let h4 : has_special s ≡ false = ground (arith, b) in
      let d : escape_cell (c ∷ s) ≡ c ∷ s = rw b refl in
      let step : reads begin (start rs fs) c ≡ reader plain (c ∷ []) fs rs =
        rw (h1, h2, h3, h5) refl in
      (
        plain,
        refl,
        ap (run (start rs fs)) d ∙ ap (λ r. run r s) step ∙ run-plain (c ∷ []) s fs rs h4,
      )
]

pub run-comma :
    (m : Mode) (f : Str) (fs : List Str) (rs : List (List Str)) (t : Str)
    → is_open m ≡ true
    → run (reader m f fs rs) (comma ∷ t) ≡ run (start rs (fs ++ f ∷ [])) t
unfolding run reads
run-comma begin f fs rs t h = refl
run-comma plain f fs rs t h = refl
run-comma closing f fs rs t h = refl
run-comma quoted f fs rs t h = cc
run-comma returned f fs rs t h = cc
run-comma refused f fs rs t h = cc

pub run-crlf :
    (m : Mode) (f : Str) (fs : List Str) (rs : List (List Str)) (t : Str)
    → is_open m ≡ true
    → run (reader m f fs rs) (carriage_return ∷ line_feed ∷ t)
      ≡ run (start (rs ++ (fs ++ f ∷ []) ∷ []) []) t
unfolding run reads
run-crlf begin f fs rs t h = refl
run-crlf plain f fs rs t h = refl
run-crlf closing f fs rs t h = refl
run-crlf quoted f fs rs t h = cc
run-crlf returned f fs rs t h = cc
run-crlf refused f fs rs t h = cc
