-- ===== src/Collector/NfmQuery.antt =====
-- The query matrix of a cycle: collector/src/nfm-query.ts. The service is given by its answers; the
-- waits between calls are not modelled.
pub mod Retry
pub mod Counts
use nfm_dashboard.Prelude.{
  ℕ, zero, suc, ◌+◌, ◌-◌, Option, none, some, List, [], ◌∷◌, ◌++◌, map, flat_map, length, Bool,
  true, false, or_else,
}
use nfm_dashboard.Prelude.Text.{Str, codes}
use nfm_dashboard.Collector.Types.{MetricName, DestCategory, FlowEdge}
use nfm_dashboard.Collector.Normalize.{RawRow, RowCtx, normalize_row, dedupe_edges}

-- How one attempt of a call ends.
pub data Answer (A : Type 0) : Type 0 where
  ok : A → Answer A
  throttled : Answer A
  error : Answer A

pub data QueryStatus : Type 0 where
  succeeded_status failed_status canceled_status running_status : QueryStatus

pub record Page : Type 0 where
  pub top_contributors : Option (List RawRow)
  pub unit : Option Str

-- The pages of the results, each with the answers to the attempts to read it; the last one has no
-- next token.
pub data ResultPages : Type 0 where
  last_page : (ℕ → Answer Page) → ResultPages
  next_page : (ℕ → Answer Page) → ResultPages → ResultPages

-- The answers to the calls of one query, by the number of the attempt (for the status, after the
-- number of the poll).
pub record QueryService : Type 0 where
  pub start : ℕ → Answer Str
  pub status : ℕ → ℕ → Answer QueryStatus
  pub results : ResultPages

pub record CycleStats : Type 0 where
  pub started : ℕ
  pub succeeded : ℕ
  pub failed : ℕ
  pub throttled : ℕ
  pub rows : ℕ

abbrev pub no_stats : CycleStats
no_stats = record { started = 0; succeeded = 0; failed = 0; throttled = 0; rows = 0 }

abbrev pub max_retries : ℕ
max_retries = 4

module _ {A : Type 0} where
  -- `left` is how many retries are left at attempt `i`; none: the call throws.
  unfoldable pub retry_from : ℕ → ℕ → (ℕ → Answer A) → CycleStats → Option A × CycleStats
  retry_from zero i answers stats = elim (answers i) [
    | ok a ↦ (some a, stats)
    | throttled ↦ (none, stats)
    | error ↦ (none, stats)
  ]
  retry_from (suc left) i answers stats = elim (answers i) [
    | ok a ↦ (some a, stats)
    | throttled ↦ retry_from left (i + 1) answers (record stats { throttled = stats.throttled + 1 })
    | error ↦ (none, stats)
  ]

  abbrev pub with_retry : (ℕ → Answer A) → CycleStats → Option A × CycleStats
  with_retry = retry_from max_retries 0

-- How the polling ends.
pub data Polled : Type 0 where
  ready gave_up threw : Polled

-- `left` is how many polls are left at poll `i`.
unfoldable pub poll_from : ℕ → ℕ → (ℕ → ℕ → Answer QueryStatus) → CycleStats → Polled × CycleStats
unfolding retry_from
poll_from zero i status stats = (ready, stats)
poll_from (suc left) i status stats =
    let (answer, stats') = with_retry (status i) stats in
    elim answer [
      | none ↦ (threw, stats')
      | some s ↦ elim s [
        | succeeded_status ↦ (ready, stats')
        | failed_status ↦ (gave_up, stats')
        | canceled_status ↦ (gave_up, stats')
        | running_status ↦ elim left [
          | zero ↦ (gave_up, stats')
          | suc _ ↦ poll_from left (i + 1) status stats'
        ]
      ]
    ]

-- One query of the matrix.
pub record Job : Type 0 where
  pub monitor : Str
  pub metric : MetricName
  pub category : DestCategory

pub record MatrixSpec : Type 0 where
  pub monitors : List Str
  pub metrics : List MetricName
  pub categories : List DestCategory
  pub bucket : Str
  pub status_poll_max : Option ℕ

abbrev pub jobs_of : MatrixSpec → List Job
jobs_of spec =
    flat_map
      (λ m.
        flat_map
          (λ met. map (λ c. record { monitor = m; metric = met; category = c }) spec.categories)
          spec.metrics)
      spec.monitors

abbrev pub add_rows : ℕ → CycleStats → CycleStats
add_rows n stats = record stats { rows = stats.rows + n }

abbrev pub fail : CycleStats → List (FlowEdge ℕ) × CycleStats
fail stats = ([], record stats { failed = stats.failed + 1 })

unfoldable pub finish : Option (List (FlowEdge ℕ)) → CycleStats → List (FlowEdge ℕ) × CycleStats
finish none stats = fail stats
finish (some edges) stats = (edges, record stats { succeeded = stats.succeeded + 1 })

module _ (sha1_hex : Str → Str) (spec : MatrixSpec) where
  abbrev pub page_edges : Job → Page → List (FlowEdge ℕ)
  page_edges job page =
      map
        (λ row. normalize_row sha1_hex row (record {
          monitor = job.monitor;
          metric = job.metric;
          category = job.category;
          bucket = spec.bucket;
          unit = or_else page.unit (codes "Count");
        }))
        (or_else page.top_contributors [])

  unfoldable pub read_results :
      Job → List (FlowEdge ℕ) → ResultPages → CycleStats → Option (List (FlowEdge ℕ)) × CycleStats
  unfolding retry_from
  read_results job edges (last_page answers) stats =
      let (answer, stats') = with_retry answers stats in
      elim answer [
        | none ↦ (none, stats')
        | some page ↦
            let read = page_edges job page in (some (edges ++ read), add_rows (length read) stats')
      ]
  read_results job edges (next_page answers rest) stats =
      let (answer, stats') = with_retry answers stats in
      elim answer [
        | none ↦ (none, stats')
        | some page ↦
            let read = page_edges job page in
            read_results job (edges ++ read) rest (add_rows (length read) stats')
      ]

  unfoldable pub after_poll :
      QueryService → Job → Polled → CycleStats → List (FlowEdge ℕ) × CycleStats
  unfolding read_results finish
  after_poll service job ready stats =
      let (edges, stats') = read_results job [] service.results stats in finish edges stats'
  after_poll service job gave_up stats = fail stats
  after_poll service job threw stats = fail stats

  unfoldable pub after_start :
      QueryService → Job → Option Str → CycleStats → List (FlowEdge ℕ) × CycleStats
  unfolding poll_from after_poll
  after_start service job none stats = fail stats
  after_start service job (some query_id) stats =
      let (polled, stats') = poll_from (or_else spec.status_poll_max 30) 0 service.status stats in
      after_poll service job polled stats'

  unfoldable pub run_one : QueryService → Job → CycleStats → List (FlowEdge ℕ) × CycleStats
  unfolding after_start retry_from
  run_one service job stats =
      let (query_id, stats') =
        with_retry service.start (record stats { started = stats.started + 1 }) in
      after_start service job query_id stats'

  -- The jobs in the order in which they complete.
  unfoldable pub run_jobs :
      (Job → QueryService) → List Job → CycleStats → List (FlowEdge ℕ) × CycleStats
  unfolding run_one
  run_jobs services [] stats = ([], stats)
  run_jobs services (job ∷ jobs) stats =
      let (edges, stats') = run_one (services job) job stats in
      let (rest, stats'') = run_jobs services jobs stats' in (edges ++ rest, stats'')

  -- `order` is the order in which the workers complete the jobs of `jobs_of spec`.
  unfoldable pub run_query_matrix : (Job → QueryService) → List Job → List (FlowEdge ℕ) × CycleStats
  unfolding run_jobs
  run_query_matrix services order =
      let (results, stats) = run_jobs services order no_stats in (dedupe_edges results, stats)
