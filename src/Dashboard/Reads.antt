-- ===== src/Dashboard/Reads.antt =====
-- What the web application reads from the tables: app/src/lib/ddb.ts. A query is given by the pages
-- that the table answers with; `localeCompare` is a parameter.
pub mod Recent
pub mod Halves
use nfm_dashboard.Prelude.{
  ℕ, ◌+◌, Option, none, some, List, [], ◌∷◌, ◌++◌, map, flat_map, filter, take, drop, length, Bool,
  true, false, not, ◌&&◌, leb, ◌==◌, if◌then◌else◌, ite, or_else,
}
use nfm_dashboard.Prelude.Text.{Str, codes, str_discrete, truthy}
use nfm_dashboard.Prelude.Map.{get, put, values}
use nfm_dashboard.Prelude.Sort.{sort}
use nfm_dashboard.Collector.Types.{FlowEdge, metric_text, category_text}
use nfm_dashboard.Collector.NfmQuery.{CycleStats}
use nfm_dashboard.Collector.Dates.{Dates}
use nfm_dashboard.Dashboard.Windows.{
  Grain, raw, hourly, WindowPart, WindowPlan, WindowPair, window_plan, window_pair_plan,
}

pub record CollectionStatus : Type 0 where
  pub cycle_ts : Str
  pub stats : CycleStats

abbrev pub reverse_onto : {A : Type 0} → List A → List A → List A
reverse_onto [] ys = ys
reverse_onto (x ∷ xs) ys = reverse_onto xs (x ∷ ys)

-- The rows of the status partition, the latest sort key first; of these the query answers at most
-- `n + 1`.
unfoldable pub get_collection_history : ℕ → List CollectionStatus → List CollectionStatus
get_collection_history n rows =
    reverse_onto
      (take n (
        filter (λ s. not (ite (str_discrete s.cycle_ts (codes "latest")) true false))
          (take (n + 1) rows)))
      []

-- The pages of a query, up to the limit if there is one; a limit of 0 is none.
unfoldable pub query_pages : {A : Type 0} → Option ℕ → List A → List (List A) → List A
query_pages limit items [] = items
query_pages limit items (page ∷ pages) =
    let so_far = items ++ page in
    let rest = query_pages limit so_far pages in
    elim limit [
      | none ↦ rest
      | some n ↦ if not (n == 0) && leb n (length so_far) then so_far else rest
    ]

abbrev pub query_all : {A : Type 0} → Option ℕ → List (List A) → List A
query_all limit pages = query_pages limit [] pages

-- The rows of one part of a window, the monitors in order; `table` has the pages of a partition.
unfoldable pub partition_key : WindowPart → Str → Str
partition_key part monitor =
    elim part.grain [ hourly ↦ codes "HFLOW" | raw ↦ codes "FLOW" ]
    ++ codes "#"
    ++ part.bucket
    ++ codes "#"
    ++ monitor

module _ (table : Str → List (List (FlowEdge ℕ))) (monitors : List Str) where
  unfoldable pub query_part : WindowPart → List (FlowEdge ℕ)
  unfolding query_pages partition_key
  query_part part = flat_map (λ m. query_all none (table (partition_key part m))) monitors

  unfoldable pub query_flows_by_bucket : Str → List (FlowEdge ℕ)
  unfolding query_part
  query_flows_by_bucket bucket = query_part (record { grain = raw; bucket = bucket })

  -- The parts are read by the worker pool, whose results are in the order of the parts.
  unfoldable pub fetch_parts : List WindowPart → List (List (FlowEdge ℕ))
  unfolding query_part
  fetch_parts parts = map query_part parts

abbrev pub flat : {A : Type 0} → List (List A) → List A
flat = flat_map (λ xs. xs)

module _ (dates : Dates) (table : Str → List (List (FlowEdge ℕ))) (monitors : List Str) where
  unfoldable pub fetch_flows_window : ℕ → ℕ → List (FlowEdge ℕ)
  unfolding fetch_parts
  fetch_flows_window n now = flat (fetch_parts table monitors (window_plan dates n now).parts)

  -- The flows of the current half and of the prior half.
  unfoldable pub fetch_window_pair : ℕ → ℕ → List (FlowEdge ℕ) × List (FlowEdge ℕ)
  unfolding fetch_parts
  fetch_window_pair n now =
      let plan = window_pair_plan dates n now in
      let per_part = fetch_parts table monitors (plan.current ++ plan.prior) in
      let half = length plan.current in (flat (take half per_part), flat (drop half per_part))

-- A flow as it is stored, with the keys of its row.
pub record StoredFlow : Type 0 where
  pub flow : FlowEdge ℕ
  pub pk : Option Str
  pub sk : Option Str

abbrev pub bar : Str
bar = codes "|"

abbrev pub content_key : FlowEdge ℕ → Str
content_key f =
    f.bucket
    ++ bar
    ++ f.monitor
    ++ bar
    ++ metric_text f.metric
    ++ bar
    ++ category_text f.category
    ++ bar
    ++ f.edge_hash

unfoldable pub row_key : StoredFlow → Str
row_key f = elim (truthy f.pk) [
  | none ↦ content_key f.flow
  | some pk ↦ elim (truthy f.sk) [ none ↦ content_key f.flow | some sk ↦ pk ++ bar ++ sk ]
]

-- The first row of each key.
unfoldable pub seen_rows : List StoredFlow → List (Str × StoredFlow) → List (Str × StoredFlow)
unfolding row_key
seen_rows [] seen = seen
seen_rows (f ∷ rows) seen =
    let key = row_key f in
    seen_rows rows
      (elim (get str_discrete key seen) [ none ↦ put str_discrete key f seen | some _ ↦ seen ])

module _ (locale_lt : Str → Str → Bool) where
  abbrev pub newer : StoredFlow → StoredFlow → Bool
  newer x y = locale_lt y.flow.bucket x.flow.bucket

  -- The rows with the pod as the source and those with it as the destination, as two paged queries.
  unfoldable pub query_pod_flows :
      List (List StoredFlow) → List (List StoredFlow) → ℕ → List StoredFlow
  unfolding query_pages seen_rows
  query_pod_flows source_pages dest_pages limit =
      let rows = query_all (some limit) source_pages ++ query_all (some limit) dest_pages in
      take limit (sort newer (values (seen_rows rows [])))
