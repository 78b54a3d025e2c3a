-- ===== src/Collector/WiQuery.antt =====
-- The workload queries of a cycle: collector/src/wi-query.ts. The service is given by its answers, as
-- in the query matrix; the results stand in the order of the jobs, whichever worker runs them.
pub mod Answers
pub mod Completes
pub mod Outcome
use nfm_dashboard.Prelude.{
  ℕ, zero, suc, ◌+◌, Option, none, some, List, [], ◌∷◌, ◌++◌, map, flat_map, or_else, ◌≡◌, ◌≢◌, ◌⊎◌,
  inl, inr, refl, ap, length, Bool, true, false, if◌then◌else◌, Option-cases,
}
use nfm_dashboard.Prelude.Text.{Str, truthy}
use nfm_dashboard.Collector.Types.{
  MetricName, DestCategory, data_transferred, retransmissions, timeouts, intra_az, inter_az,
  inter_vpc, inter_region, amazon_s3, amazon_dynamodb, unclassified, internet, transit_gateway,
  local_zone, aws_service,
}
use nfm_dashboard.Collector.NfmQuery.{
  Answer, ok, throttled, error, QueryStatus, succeeded_status, failed_status, canceled_status,
  running_status,
}

pub record WiRow : Type 0 where
  pub account_id : Option Str
  pub local_subnet_id : Option Str
  pub local_az : Option Str
  pub local_vpc_id : Option Str
  pub remote_identifier : Option Str
  pub value : Option ℕ

pub record WiResult : Type 0 where
  pub metric : MetricName
  pub category : DestCategory
  pub rows : List WiRow

abbrev pub metrics : List MetricName
metrics = data_transferred ∷ retransmissions ∷ timeouts ∷ []

abbrev pub categories : List DestCategory
categories =
    intra_az ∷ inter_az ∷ inter_vpc ∷ inter_region ∷ amazon_s3 ∷ amazon_dynamodb ∷ unclassified
    ∷ internet ∷ transit_gateway ∷ local_zone ∷ aws_service ∷ []

module _ {A : Type 0} where
  -- `left` is how many retries are left at attempt `i`; none: the call throws.
  unfoldable pub wi_retry_from : ℕ → ℕ → (ℕ → Answer A) → Option A
  wi_retry_from zero i answers = elim (answers i) [
    | ok a ↦ some a
    | throttled ↦ none
    | error ↦ none
  ]
  wi_retry_from (suc left) i answers = elim (answers i) [
    | ok a ↦ some a
    | throttled ↦ wi_retry_from left (i + 1) answers
    | error ↦ none
  ]

  abbrev pub wi_with_retry : (ℕ → Answer A) → Option A
  wi_with_retry = wi_retry_from 4 0

-- The pages of the results, each with the answers to the attempts to read it.
pub data WiPages : Type 0 where
  last_wi_page : (ℕ → Answer (Option (List WiRow))) → WiPages
  next_wi_page : (ℕ → Answer (Option (List WiRow))) → WiPages → WiPages

pub record WiService : Type 0 where
  pub start : ℕ → Answer Str
  pub status : ℕ → ℕ → Answer QueryStatus
  pub results : WiPages

-- Whether the polls end with a status that lets the results be read; `left` polls are left at poll `i`.
unfoldable pub wi_ready : ℕ → ℕ → (ℕ → ℕ → Answer QueryStatus) → Bool
unfolding wi_retry_from
wi_ready zero i status = true
wi_ready (suc left) i status = elim (wi_with_retry (status i)) [
  | none ↦ false
  | some s ↦ elim s [
    | succeeded_status ↦ true
    | failed_status ↦ false
    | canceled_status ↦ false
    | running_status ↦ elim left [ zero ↦ false | suc _ ↦ wi_ready left (i + 1) status ]
  ]
]

unfoldable pub wi_read : List WiRow → WiPages → Option (List WiRow)
unfolding wi_retry_from
wi_read rows (last_wi_page answers) = elim (wi_with_retry answers) [
  | none ↦ none
  | some page ↦ some (rows ++ or_else page [])
]
wi_read rows (next_wi_page answers rest) = elim (wi_with_retry answers) [
  | none ↦ none
  | some page ↦ wi_read (rows ++ or_else page []) rest
]

-- The rows of a query: none where it fails at any point, which the source answers with no rows.
unfoldable pub wi_rows : WiService → Option (List WiRow)
unfolding wi_ready wi_read
wi_rows service = elim (wi_with_retry service.start) [
  | none ↦ none
  | some query_id ↦ if wi_ready 30 0 service.status then wi_read [] service.results else none
]

abbrev pub WiJob : Type 0
WiJob = MetricName × DestCategory

unfoldable pub wi_run_one : WiService → WiJob → WiResult
unfolding wi_rows
wi_run_one service job = record {
  metric = job.0;
  category = job.1;
  rows = or_else (wi_rows service) [];
}

abbrev pub wi_jobs : List WiJob
wi_jobs = flat_map (λ metric. map (λ category. (metric, category)) categories) metrics

-- `scopes` are the answers to the attempts to list the scopes, each with the first scope if any.
-- The identifier of the first scope, if the call succeeds and there is one.
abbrev pub scope_of : (ℕ → Answer (Option Str)) → Option Str
scope_of scopes = elim (wi_with_retry scopes) [ none ↦ none | some scope ↦ truthy scope ]

unfoldable pub collect_workload_insights :
    (ℕ → Answer (Option Str)) → (WiJob → WiService) → List WiResult
unfolding wi_run_one wi_retry_from
collect_workload_insights scopes services = elim (scope_of scopes) [
  | none ↦ []
  | some scope_id ↦ map (λ job. wi_run_one (services job) job) wi_jobs
]

abbrev pub label_of : WiResult → WiJob
label_of r = (r.metric, r.category)
