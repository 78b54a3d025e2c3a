-- ===== src/Collector/Tests/Queries.antt =====
-- The queries of a cycle.
use mathlib.Core.List.Perm
use nfm_dashboard.Prelude.{
  Option, map, All, Elem, ◌⊎◌, ℕ, zero, suc, ◌+◌, ◌≤◌, none, some, [], ◌∷◌, length, ◌≡◌,
}
use nfm_dashboard.Prelude.Text.{Str, codes}
use nfm_dashboard.Collector.Types.{
  MetricName, DestCategory, data_transferred, timeouts, round_trip_time, intra_az,
}
use nfm_dashboard.Collector.NfmQuery.{
  Answer, ok, throttled, succeeded_status, last_page, QueryService, Job, MatrixSpec, no_stats,
  jobs_of, run_jobs, run_query_matrix,
}
use nfm_dashboard.Collector.NfmQuery.Counts.{run_query_matrix_counts}
use nfm_dashboard.Collector.WiQuery.{
  WiRow, WiJob, WiService, last_wi_page, label_of, collect_workload_insights,
}
use nfm_dashboard.Collector.WiQuery.Outcome.{
  HasScope, IsOutcome, collect_workload_insights_outcomes,
}
use nfm_dashboard.Collector.Tests.Data.{digest, sample_row}

-- Throttled twice, then answered.
abbrev third_time : ℕ → Answer Str
third_time zero = throttled
third_time (suc zero) = throttled
third_time (suc (suc n)) = ok (codes "q")

abbrev service : Job → QueryService
service job = record {
  start = third_time;
  status = λ i n. ok succeeded_status;
  results = last_page (λ n. ok (record { top_contributors = some (sample_row ∷ []); unit = none }));
}

abbrev spec : MatrixSpec
spec = record {
  monitors = codes "m" ∷ [];
  metrics = data_transferred ∷ timeouts ∷ [];
  categories = intra_az ∷ [];
  bucket = codes "t";
  status_poll_max = some 30;
}

abbrev job : Job
job = record { monitor = codes "m"; metric = timeouts; category = intra_az }

run_query_matrix_counts_example :
    let stats = (run_query_matrix digest spec service (jobs_of spec)).1 in
    (stats.started ≡ length (jobs_of spec))
    × (stats.succeeded + stats.failed ≡ stats.started)
    × (length (run_jobs digest spec service (jobs_of spec) no_stats).0 ≤ stats.rows)
run_query_matrix_counts_example =
    run_query_matrix_counts digest spec service (jobs_of spec) Perm.rfl

-- One scope, and queries that are throttled, succeed at once and have a row.
abbrev one_scope : ℕ → Answer (Option Str)
one_scope n = ok (some (codes "s"))

abbrev one_row : WiRow
one_row = record {
  account_id = none;
  local_subnet_id = none;
  local_az = none;
  local_vpc_id = none;
  remote_identifier = some (codes "r");
  value = some 7;
}

abbrev wi_service : WiJob → WiService
wi_service _ = record {
  start = third_time;
  status = λ i n. ok succeeded_status;
  results = last_wi_page (λ n. ok (some (one_row ∷ [])));
}

collect_workload_insights_outcomes_example :
    let results = collect_workload_insights one_scope wi_service in
    ((¬ HasScope one_scope) × (results ≡ []))
    ⊎ (HasScope one_scope
        × (length results ≡ 33)
        × ((metric : MetricName) (category : DestCategory)
            → (metric ≡ round_trip_time) ⊎ Elem (metric, category) (map label_of results))
        × All (λ r. IsOutcome (wi_service (label_of r)) r.rows) results)
collect_workload_insights_outcomes_example = collect_workload_insights_outcomes one_scope wi_service
