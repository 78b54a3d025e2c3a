-- ===== src/Collector/NfmQuery/Counts.antt =====
-- The statistics of a cycle.
use mathlib.Core.List.{Perm}
use mathlib.Core.Path.{subst}
use nfm_dashboard.Prelude.{
  ℕ, zero, suc, ◌+◌, ◌≤◌, Option, none, some, List, [], ◌∷◌, ◌++◌, length, length-append, ◌≡◌, ◌⊎◌,
  inl, inr, refl, arith, Option-cases, or_else, sym,
}
use nfm_dashboard.Prelude.Perms.{length-Perm}
use nfm_dashboard.Prelude.Text.{Str}
use nfm_dashboard.Collector.Types.{FlowEdge}
use nfm_dashboard.Collector.NfmQuery.{
  Answer, CycleStats, retry_from, with_retry, Polled, ready, gave_up, threw, poll_from, QueryStatus,
  ResultPages, last_page, next_page, QueryService, Job, MatrixSpec, read_results, run_one,
  after_start, after_poll, finish, fail, run_jobs, run_query_matrix, no_stats, jobs_of, page_edges,
  add_rows, max_retries,
}

-- Neither a query nor a row was counted.
abbrev IsBesides : CycleStats → CycleStats → Type 0
IsBesides s t =
    (t.started ≡ s.started)
    × (t.succeeded ≡ s.succeeded)
    × (t.failed ≡ s.failed)
    × (t.rows ≡ s.rows)

retry_from-IsBesides :
    {A : Type 0} (left i : ℕ) (answers : ℕ → Answer A) (s : CycleStats)
    → IsBesides s (retry_from left i answers s).1
unfolding retry_from
retry_from-IsBesides zero i answers s = ground arith
retry_from-IsBesides (suc left) i answers s =
    ground
      (arith, retry_from-IsBesides left (i + 1) answers (record s { throttled = s.throttled + 1 }))

poll_from-IsBesides :
    (left i : ℕ) (status : ℕ → ℕ → Answer QueryStatus) (s : CycleStats)
    → IsBesides s (poll_from left i status s).1
unfolding poll_from
poll_from-IsBesides zero i status s = ground arith
poll_from-IsBesides (suc left) i status s =
    let t = (with_retry (status i) s).1 in
    let same : IsBesides s t = retry_from-IsBesides max_retries 0 (status i) s in
    let rest = poll_from-IsBesides left (i + 1) status t in ground (arith, same, rest)

-- What reading the results adds: the rows are those of the edges, or not all of them if a call
-- failed.
abbrev IsRead : List (FlowEdge ℕ) → CycleStats → Option (List (FlowEdge ℕ)) → CycleStats → Type 0
IsRead edges s result t =
    (t.started ≡ s.started)
    × (t.succeeded ≡ s.succeeded)
    × (t.failed ≡ s.failed)
    × (s.rows ≤ t.rows)
    × elim result [ none ↦ Unit | some read ↦ t.rows + length edges ≡ s.rows + length read ]

IsRead-page :
    (edges read : List (FlowEdge ℕ)) (s s' : CycleStats) (result : Option (List (FlowEdge ℕ)))
    (t : CycleStats)
    → IsBesides s s'
    → IsRead (edges ++ read) (add_rows (length read) s') result t
    → IsRead edges s result t
IsRead-page edges read s s' none t b h = ground arith
IsRead-page edges read s s' (some all) t b h = ground (arith, length-append edges read)

-- A query that went on from the statistics `s` ended with the edges and statistics `r`.
abbrev pub IsCounted : CycleStats → List (FlowEdge ℕ) × CycleStats → Type 0
IsCounted s r =
    (r.1.started ≡ s.started)
    × (((r.1.succeeded ≡ s.succeeded + 1)
          × (r.1.failed ≡ s.failed)
          × (r.1.rows ≡ s.rows + length r.0))
        ⊎ ((r.1.succeeded ≡ s.succeeded)
            × (r.1.failed ≡ s.failed + 1)
            × (s.rows ≤ r.1.rows)
            × (r.0 ≡ [])))

fail-IsCounted : (s t : CycleStats) → IsBesides s t → IsCounted s (fail t)
fail-IsCounted s t h = ground arith

finish-IsCounted :
    (s t : CycleStats) (result : Option (List (FlowEdge ℕ)))
    → IsRead [] s result t
    → IsCounted s (finish result t)
unfolding finish
finish-IsCounted s t none h = ground arith
finish-IsCounted s t (some edges) h = ground arith

IsCounted-besides :
    (s t : CycleStats) (r : List (FlowEdge ℕ) × CycleStats)
    → IsBesides s t
    → IsCounted t r
    → IsCounted s r
IsCounted-besides s t r h c = ground arith

module _ (sha1_hex : Str → Str) (spec : MatrixSpec) where
  read_results-IsRead :
      (job : Job) (edges : List (FlowEdge ℕ)) (pages : ResultPages) (s : CycleStats)
      → IsRead edges s
          (read_results sha1_hex spec job edges pages s).0
          (read_results sha1_hex spec job edges pages s).1
  unfolding read_results
  read_results-IsRead job edges (last_page answers) s =
      let r = with_retry answers s in
      let same : IsBesides s r.1 = retry_from-IsBesides max_retries 0 answers s in
      elim (Option-cases r.0) [
        | inl e ↦ rw (e, read_results) (ground (arith, same))
        | inr (page, e) ↦
            rw (e, read_results)
              (ground (arith, same, length-append edges (page_edges sha1_hex spec job page)))
      ]
  read_results-IsRead job edges (next_page answers rest) s =
      let r = with_retry answers s in
      let same : IsBesides s r.1 = retry_from-IsBesides max_retries 0 answers s in
      elim (Option-cases r.0) [
        | inl e ↦ rw (e, read_results) (ground (arith, same))
        | inr (page, e) ↦
            let read = page_edges sha1_hex spec job page in
            let s' = add_rows (length read) r.1 in
            let tail = read_results sha1_hex spec job (edges ++ read) rest s' in
            let step : read_results sha1_hex spec job edges (next_page answers rest) s ≡ tail =
              ground arith in
            subst (λ x. IsRead edges s x.0 x.1) (sym step)
              (IsRead-page edges read s r.1 tail.0 tail.1 same
                (read_results-IsRead job (edges ++ read) rest s'))
      ]

  after_poll-IsCounted :
      (service : QueryService) (job : Job) (p : Polled) (s : CycleStats)
      → IsCounted s (after_poll sha1_hex spec service job p s)
  unfolding after_poll
  after_poll-IsCounted service job ready s =
      finish-IsCounted s _ _ (read_results-IsRead job [] service.results s)
  after_poll-IsCounted service job gave_up s = fail-IsCounted s s (refl, refl, refl, refl)
  after_poll-IsCounted service job threw s = fail-IsCounted s s (refl, refl, refl, refl)

  after_start-IsCounted :
      (service : QueryService) (job : Job) (query_id : Option Str) (s : CycleStats)
      → IsCounted s (after_start sha1_hex spec service job query_id s)
  unfolding after_start
  after_start-IsCounted service job none s = fail-IsCounted s s (refl, refl, refl, refl)
  after_start-IsCounted service job (some query_id) s =
      let r = poll_from (or_else spec.status_poll_max 30) 0 service.status s in
      IsCounted-besides s r.1 (after_poll sha1_hex spec service job r.0 r.1)
        (poll_from-IsBesides (or_else spec.status_poll_max 30) 0 service.status s)
        (after_poll-IsCounted service job r.0 r.1)

  -- A query is counted as started, and either as succeeded, with a row for each of its edges, or as
  -- failed, with no edges.
  pub run_one-IsCounted :
      (service : QueryService) (job : Job) (s : CycleStats)
      → IsCounted (record s { started = s.started + 1 }) (run_one sha1_hex spec service job s)
  unfolding run_one
  run_one-IsCounted service job s =
      let s' = record s { started = s.started + 1 } in
      let r = with_retry service.start s' in
      IsCounted-besides s' r.1 (after_start sha1_hex spec service job r.0 r.1)
        (retry_from-IsBesides max_retries 0 service.start s')
        (after_start-IsCounted service job r.0 r.1)

  abbrev pub IsTally : ℕ → CycleStats → List (FlowEdge ℕ) × CycleStats → Type 0
  IsTally n s r =
      (r.1.started ≡ s.started + n)
      × (r.1.succeeded + r.1.failed ≡ s.succeeded + s.failed + n)
      × (s.rows + length r.0 ≤ r.1.rows)

  run_jobs-IsTally :
      (services : Job → QueryService) (jobs : List Job) (s : CycleStats)
      → IsTally (length jobs) s (run_jobs sha1_hex spec services jobs s)
  unfolding run_jobs
  run_jobs-IsTally services [] s = ground arith
  run_jobs-IsTally services (job ∷ jobs) s =
      let r = run_one sha1_hex spec (services job) job s in
      let one : IsCounted (record s { started = s.started + 1 }) r =
        run_one-IsCounted (services job) job s in
      let rest = run_jobs sha1_hex spec services jobs r.1 in
      let all : IsTally (length jobs) r.1 rest = run_jobs-IsTally services jobs r.1 in
      ground (arith, one, all, length-append r.0 rest.0)

-- In whatever order the workers complete the jobs of the matrix, every job is counted as started and
-- as either succeeded or failed, and the rows are at least the edges before their duplicates are
-- removed.
pub run_query_matrix_counts :
    (sha1_hex : Str → Str) (spec : MatrixSpec) (services : Job → QueryService) (order : List Job)
    → Perm order (jobs_of spec)
    → let stats = (run_query_matrix sha1_hex spec services order).1 in
      (stats.started ≡ length (jobs_of spec))
      × (stats.succeeded + stats.failed ≡ stats.started)
      × (length (run_jobs sha1_hex spec services order no_stats).0 ≤ stats.rows)
unfolding run_query_matrix
run_query_matrix_counts sha1_hex spec services order p = ground (
  arith,
  run_jobs-IsTally sha1_hex spec services order no_stats,
  length-Perm order (jobs_of spec) p,
)
