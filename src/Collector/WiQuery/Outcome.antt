-- ===== src/Collector/WiQuery/Outcome.antt =====
-- What the workload queries of a cycle return, by what the service answers.
use nfm_dashboard.Prelude.{
  ℕ, Option, none, some, List, [], ◌∷◌, map, ◌≡◌, ◌⊎◌, inl, inr, refl, ap, sym, length,
  Option-cases, All, Elem, Elem-flat_map, Elem-map_of, arith,
}
use mathlib.Core.Path.{subst}
use nfm_dashboard.Prelude.Text.{Str, truthy}
use nfm_dashboard.Collector.Types.{MetricName, DestCategory, round_trip_time}
use nfm_dashboard.Collector.NfmQuery.{Answer}
use nfm_dashboard.Collector.WiQuery.{
  WiRow, wi_with_retry, WiService, wi_rows, WiJob, wi_run_one, wi_jobs, metrics, categories,
  scope_of, collect_workload_insights, label_of,
}
use nfm_dashboard.Collector.WiQuery.Answers.{Returns, wi_with_retry-Returns}
use nfm_dashboard.Collector.WiQuery.Completes.{Completes, wi_rows-Completes}

-- The rows of the query, or none where the query does not complete.
abbrev pub IsOutcome : WiService → List WiRow → Type 0
IsOutcome service rows =
    Completes service rows ⊎ ((rows ≡ []) × ((r : List WiRow) → ¬ Completes service r))

wi_run_one-IsOutcome :
    (service : WiService) (job : WiJob) → IsOutcome service (wi_run_one service job).rows
unfolding wi_run_one
wi_run_one-IsOutcome service job = elim (Option-cases (wi_rows service)) [
  | inl e ↦
      rw (e, wi_run_one)
        (inr (refl, λ r c. let found = (wi_rows-Completes service r).1 c in none_some e found))
  | inr (rows, e) ↦ rw (e, wi_run_one) (inl ((wi_rows-Completes service rows).0 e))
]
  where
    none_some : {o : Option (List WiRow)} {r : List WiRow} → o ≡ none → o ≡ some r → ⊥
    none_some p q = cc

labels-map :
    (services : WiJob → WiService) (jobs : List WiJob)
    → map label_of (map (λ job. wi_run_one (services job) job) jobs) ≡ jobs
unfolding wi_run_one
labels-map services [] = refl
labels-map services (job ∷ jobs) = ap (◌∷◌ job) (labels-map services jobs)

outcomes :
    (services : WiJob → WiService) (jobs : List WiJob)
    → All
        (λ r. IsOutcome (services (label_of r)) r.rows)
        (map (λ job. wi_run_one (services job) job) jobs)
unfolding wi_run_one
outcomes services [] = tt
outcomes services (job ∷ jobs) = (wi_run_one-IsOutcome (services job) job, outcomes services jobs)

metric_cases : (metric : MetricName) → (metric ≡ round_trip_time) ⊎ Elem metric metrics
metric_cases metric = ground arith

Elem-categories : (category : DestCategory) → Elem category categories
Elem-categories category = ground arith

wi_jobs_all :
    (metric : MetricName) (category : DestCategory)
    → (metric ≡ round_trip_time) ⊎ Elem (metric, category) wi_jobs
wi_jobs_all metric category = elim (metric_cases metric) [
  | inl e ↦ inl e
  | inr m ↦ inr (
      Elem-flat_map (λ x. map (λ c. (x, c)) categories) metrics metric (metric, category) m
        (Elem-map_of (λ c. (metric, c)) categories category (Elem-categories category)))
]

-- The service answers with a first scope that has an identifier.
abbrev pub HasScope : (ℕ → Answer (Option Str)) → Type 0
HasScope scopes = (c : ℕ) × (id : Str) × Returns scopes (some (c ∷ id))

scope_of-HasScope :
    (scopes : ℕ → Answer (Option Str))
    → ((scope_of scopes ≡ none) × ¬ HasScope scopes)
      ⊎ ((id : Str) × (scope_of scopes ≡ some id) × HasScope scopes)
unfolding truthy
scope_of-HasScope scopes = elim (Option-cases (wi_with_retry scopes)) [
  | inl e ↦ inl (
    rw (e, scope_of) refl,
    λ (c, id, r). not_both e ((wi_with_retry-Returns scopes (some (c ∷ id))).1 r),
  )
  | inr (o, e) ↦ by_scope o e
]
  where
    not_both : {p : Option (Option Str)} {x : Option Str} → p ≡ none → p ≡ some x → ⊥
    not_both h k = cc

    by_scope :
        (o : Option Str)
        → wi_with_retry scopes ≡ some o
        → ((scope_of scopes ≡ none) × ¬ HasScope scopes)
          ⊎ ((id : Str) × (scope_of scopes ≡ some id) × HasScope scopes)
    by_scope none e = inl (
      rw (e, scope_of) refl,
      λ (c, id, r). let f = (wi_with_retry-Returns scopes (some (c ∷ id))).1 r in cc,
    )
    by_scope (some []) e = inl (
      rw (e, scope_of) refl,
      λ (c, id, r). let f = (wi_with_retry-Returns scopes (some (c ∷ id))).1 r in cc,
    )
    by_scope (some (c ∷ id)) e =
        inr (
          c ∷ id,
          rw (e, scope_of) refl,
          (c, id, (wi_with_retry-Returns scopes (some (c ∷ id))).0 e),
        )

-- Where the service answers with no first scope that has an identifier there are no results. Where it
-- does, there are 33, among them one of each metric but the round trip time and each category; the rows
-- of a result are those of all pages of its query, where this is started, succeeds within 30 polls and
-- has all its pages read, each call answered within 5 attempts, and none where it does not.
pub collect_workload_insights_outcomes :
    (scopes : ℕ → Answer (Option Str)) (services : WiJob → WiService)
    → let results = collect_workload_insights scopes services in
      ((¬ HasScope scopes) × (results ≡ []))
      ⊎ (HasScope scopes
          × (length results ≡ 33)
          × ((metric : MetricName) (category : DestCategory)
              → (metric ≡ round_trip_time) ⊎ Elem (metric, category) (map label_of results))
          × All (λ r. IsOutcome (services (label_of r)) r.rows) results)
unfolding collect_workload_insights
collect_workload_insights_outcomes scopes services = elim (scope_of-HasScope scopes) [
  | inl (e, n) ↦ inl (n, rw (e, collect_workload_insights) refl)
  | inr (id, e, has) ↦
      let labels = labels-map services wi_jobs in
      rw (e, collect_workload_insights)
        (inr (
          has,
          refl,
          λ metric category.
              subst (λ (js : List WiJob). (metric ≡ round_trip_time) ⊎ Elem (metric, category) js)
                (sym labels) (wi_jobs_all metric category),
          outcomes services wi_jobs,
        ))
]
