-- ===== src/Collector/WiQuery/Completes.antt =====
-- When a workload query gives rows, by the answers of the service.
use nfm_dashboard.Prelude.{
  ℕ, zero, suc, ◌+◌, ◌≤◌, Option, none, some, List, [], ◌++◌, or_else, ◌≡◌, ◌↔◌, ◌⊎◌, inl, inr,
  refl, ap, sym, ◌∙◌, true, Option-cases, Bool-cases, arith,
}
use mathlib.Core.List.{append_assoc}
use mathlib.Core.Path.{subst}
use nfm_dashboard.Prelude.Text.{Str}
use nfm_dashboard.Collector.NfmQuery.{
  Answer, QueryStatus, succeeded_status, failed_status, canceled_status, running_status,
}
use nfm_dashboard.Collector.WiQuery.{
  WiRow, wi_with_retry, WiPages, last_wi_page, next_wi_page, WiService, wi_ready, wi_read, wi_rows,
}
use nfm_dashboard.Collector.WiQuery.Answers.{Returns, wi_with_retry-Returns}

-- From poll `i` on, the query is running until it has succeeded, at poll 29 at the latest.
pub data Polled (status : ℕ → ℕ → Answer QueryStatus) : ℕ → Type 0 where
  succeeded : (i : ℕ) → i ≤ 29 → Returns (status i) succeeded_status → Polled status i
  running : (i : ℕ) → Returns (status i) running_status → Polled status (i + 1) → Polled status i

Polled-le : {status : ℕ → ℕ → Answer QueryStatus} {i : ℕ} → Polled status i → i ≤ 29
Polled-le (succeeded i h e) = h
Polled-le (running i e d) = omega (arith, Polled-le d)

-- What a poll answers.
abbrev IsPoll : (ℕ → Answer QueryStatus) → Option QueryStatus → Type 0
IsPoll answers o = wi_with_retry answers ≡ o

IsPoll-cases :
    (answers : ℕ → Answer QueryStatus)
    → IsPoll answers (some succeeded_status)
      ⊎ (IsPoll answers (some running_status)
          ⊎ (IsPoll answers none
              ⊎ (IsPoll answers (some failed_status) ⊎ IsPoll answers (some canceled_status))))
IsPoll-cases answers = elim (Option-cases (wi_with_retry answers)) [
  | inl e ↦ inr (inr (inl e))
  | inr (s, e) ↦ status_of s e
]
  where
    status_of :
        (s : QueryStatus)
        → IsPoll answers (some s)
        → IsPoll answers (some succeeded_status)
          ⊎ (IsPoll answers (some running_status)
              ⊎ (IsPoll answers none
                  ⊎ (IsPoll answers (some failed_status) ⊎ IsPoll answers (some canceled_status))))
    status_of succeeded_status e = inl e
    status_of running_status e = inr (inl e)
    status_of failed_status e = inr (inr (inr (inl e)))
    status_of canceled_status e = inr (inr (inr (inr e)))

wi_ready-Polled :
    (left i : ℕ) (status : ℕ → ℕ → Answer QueryStatus)
    → i + suc left ≡ 30
    → wi_ready (suc left) i status ≡ true
    → Polled status i
unfolding wi_ready
wi_ready-Polled zero i status h e = elim (IsPoll-cases (status i)) [
  | inl p ↦ succeeded i (omega arith) ((wi_with_retry-Returns (status i) succeeded_status).0 p)
  | inr (inl p) ↦ let q = rw (p, wi_ready) at e in cc
  | inr (inr (inl p)) ↦ let q = rw (p, wi_ready) at e in cc
  | inr (inr (inr (inl p))) ↦ let q = rw (p, wi_ready) at e in cc
  | inr (inr (inr (inr p))) ↦ let q = rw (p, wi_ready) at e in cc
]
wi_ready-Polled (suc left) i status h e = elim (IsPoll-cases (status i)) [
  | inl p ↦ succeeded i (omega arith) ((wi_with_retry-Returns (status i) succeeded_status).0 p)
  | inr (inl p) ↦
      let q = rw (p, wi_ready) at e in
      running i ((wi_with_retry-Returns (status i) running_status).0 p)
        (wi_ready-Polled left (i + 1) status (omega arith) q)
  | inr (inr (inl p)) ↦ let q = rw (p, wi_ready) at e in cc
  | inr (inr (inr (inl p))) ↦ let q = rw (p, wi_ready) at e in cc
  | inr (inr (inr (inr p))) ↦ let q = rw (p, wi_ready) at e in cc
]

Polled-cases :
    {status : ℕ → ℕ → Answer QueryStatus} {i : ℕ}
    → Polled status i
    → Returns (status i) succeeded_status
      ⊎ (Returns (status i) running_status × Polled status (i + 1))
Polled-cases (succeeded i h r) = inl r
Polled-cases (running i r d) = inr (r, d)

wi_ready_of :
    (left i : ℕ) (status : ℕ → ℕ → Answer QueryStatus)
    → i + suc left ≡ 30
    → Polled status i
    → wi_ready (suc left) i status ≡ true
unfolding wi_ready
wi_ready_of zero i status h x = elim (Polled-cases x) [
  | inl r ↦ rw ((wi_with_retry-Returns (status i) succeeded_status).1 r, wi_ready) refl
  | inr (r, d) ↦ absurd (omega (arith, Polled-le d))
]
wi_ready_of (suc left) i status h x = elim (Polled-cases x) [
  | inl r ↦ rw ((wi_with_retry-Returns (status i) succeeded_status).1 r, wi_ready) refl
  | inr (r, d) ↦
      rw ((wi_with_retry-Returns (status i) running_status).1 r, wi_ready)
        (wi_ready_of left (i + 1) status (omega arith) d)
]

-- Every page was answered, and the rows are those of the pages in turn.
abbrev pub AreRead : WiPages → List WiRow → Type 0
AreRead (last_wi_page answers) rows =
    (page : Option (List WiRow)) × Returns answers page × (rows ≡ or_else page [])
AreRead (next_wi_page answers pages) rows =
    (page : Option (List WiRow)) × (rest : List WiRow) × Returns answers page
    × AreRead pages rest
    × (rows ≡ or_else page [] ++ rest)

wi_read-AreRead :
    (pages : WiPages) (before all : List WiRow)
    → wi_read before pages ≡ some all
    → (rows : List WiRow) × AreRead pages rows × (all ≡ before ++ rows)
unfolding wi_read
wi_read-AreRead (last_wi_page answers) before all e = elim (Option-cases (wi_with_retry answers)) [
  | inl p ↦ let q = rw (p, wi_read) at e in cc
  | inr (page, p) ↦
      let q = rw (p, wi_read) at e in
      let same : all ≡ before ++ or_else page [] = cc in
      (or_else page [], (page, (wi_with_retry-Returns answers page).0 p, refl), same)
]
wi_read-AreRead (next_wi_page answers pages) before all e =
    elim (Option-cases (wi_with_retry answers)) [
      | inl p ↦ let q = rw (p, wi_read) at e in cc
      | inr (page, p) ↦
          let q = rw (p, wi_read) at e in
          let (rest, read, same) = wi_read-AreRead pages (before ++ or_else page []) all q in
          (
            or_else page [] ++ rest,
            (page, rest, (wi_with_retry-Returns answers page).0 p, read, refl),
            same ∙ append_assoc before (or_else page []) rest,
          )
    ]

wi_read_of :
    (pages : WiPages) (before rows : List WiRow)
    → AreRead pages rows
    → wi_read before pages ≡ some (before ++ rows)
unfolding wi_read
wi_read_of (last_wi_page answers) before rows (page, r, e) =
    rw ((wi_with_retry-Returns answers page).1 r, wi_read, e) refl
wi_read_of (next_wi_page answers pages) before rows (page, rest, r, read, e) =
    rw ((wi_with_retry-Returns answers page).1 r, wi_read, e)
      (wi_read_of pages (before ++ or_else page []) rest read
        ∙ ap some (append_assoc before (or_else page []) rest))

-- A query that is started, succeeds, and whose pages are all read: with their rows.
abbrev pub Completes : WiService → List WiRow → Type 0
Completes service rows =
    (query_id : Str) × Returns service.start query_id
    × Polled service.status 0
    × AreRead service.results rows

pub wi_rows-Completes :
    (service : WiService) (rows : List WiRow)
    → (wi_rows service ≡ some rows) ↔ Completes service rows
unfolding wi_rows
wi_rows-Completes service rows = (
  λ e. elim (Option-cases (wi_with_retry service.start)) [
    | inl p ↦ let q = rw (p, wi_rows) at e in cc
    | inr (id, p) ↦ elim (Bool-cases (wi_ready 30 0 service.status)) [
      | inr b ↦ let q = rw (p, b, wi_rows) at e in cc
      | inl b ↦
          let q = rw (p, b, wi_rows) at e in
          let (rows', read, same) = wi_read-AreRead service.results [] rows q in
          (
            id,
            (wi_with_retry-Returns service.start id).0 p,
            wi_ready-Polled 29 0 service.status refl b,
            subst (AreRead service.results) (sym same) read,
          )
    ]
  ],
  λ (id, r, polled, read).
      rw
        (
          (wi_with_retry-Returns service.start id).1 r,
          wi_ready_of 29 0 service.status refl polled,
          wi_rows,
        )
        (wi_read_of service.results [] rows read),
)
