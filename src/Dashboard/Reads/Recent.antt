-- ===== src/Dashboard/Reads/Recent.antt =====
-- The rows of a pod are its most recent ones, each key once.
use nfm_dashboard.Prelude.{ℕ, none, some, List, ◌++◌, ◌≡◌, All, Elem, Distinct}
use nfm_dashboard.Prelude.Text.{Str, str_discrete}
use nfm_dashboard.Prelude.Map.{get, put, keys}
use nfm_dashboard.Dashboard.Reads.{StoredFlow, row_key, query_all}

-- What is kept of a row: its key, and that it is one of the rows.
abbrev IsKept : List StoredFlow → Str × StoredFlow → Type 0
IsKept rows x = (row_key x.1 ≡ x.0) × Elem x.1 rows

record Seen (rows : List StoredFlow) (seen : List (Str × StoredFlow)) : Type 0 where
  kept : All (IsKept rows) seen
  distinct : Distinct (keys seen)

see_row : StoredFlow → List (Str × StoredFlow) → List (Str × StoredFlow)
see_row f seen = elim (get str_discrete (row_key f) seen) [
  | none ↦ put str_discrete (row_key f) f seen
  | some _ ↦ seen
]

-- The rows that both queries answer with, up to their limits.
abbrev pub answered : List (List StoredFlow) → List (List StoredFlow) → ℕ → List StoredFlow
answered source_pages dest_pages limit =
    query_all (some limit) source_pages ++ query_all (some limit) dest_pages
