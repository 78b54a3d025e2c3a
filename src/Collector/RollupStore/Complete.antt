-- ===== src/Collector/RollupStore/Complete.antt =====
-- An hour is marked as done only when all its rows are stored.
use mathlib.Core.List.{Perm}
use mathlib.Core.List.Perm
use nfm_dashboard.Prelude.{
  ℕ, ◌+◌, ◌/◌, some, List, [], ◌∷◌, ◌≡◌, ◌≢◌, refl, All, ◌⊎◌, inl, inr, arith, Option-cases,
}
use nfm_dashboard.Prelude.Text.{Str}
use nfm_dashboard.Prelude.Ratio.{Ratio}
use nfm_dashboard.Collector.Types.{FlowEdge}
use nfm_dashboard.Collector.Dates.{Dates}
use nfm_dashboard.Collector.Rollup.{
  eligible_missing_hours, default_lookback_hours, default_max_per_cycle,
}
use nfm_dashboard.Collector.Storage.Items.{Item}
use nfm_dashboard.Collector.Storage.Batch.{batch_write_all}
use nfm_dashboard.Collector.Storage.Batch.Accounts.{batch_write_all-landed}
use nfm_dashboard.Collector.RollupStore.Reads.{
  Covers, AllRead, partitions_of-Covers, read_partitions-AllRead,
}
use nfm_dashboard.Collector.RollupStore.{
  Pages, HourServices, HourLog, Status, marked, incomplete, aborted, read_partitions, partitions_of,
  hour_items, write_hour, roll_hour, roll_hours, run_rollup_step, done_hours, rollup_ttl_seconds,
}

Status-cases : (s : Status) → (s ≢ marked) ⊎ (s ≡ marked)
Status-cases s = ground arith

-- How the loop goes on after an hour.
abbrev if_aborted : Status → List HourLog → List HourLog → List HourLog
if_aborted s stop go = elim s [ aborted ↦ stop | _ ↦ go ]

Aborted-cases :
    (s : Status) → (s ≡ aborted) ⊎ ((stop go : List HourLog) → if_aborted s stop go ≡ go)
Aborted-cases marked = inr (λ stop go. refl)
Aborted-cases incomplete = inr (λ stop go. refl)
Aborted-cases aborted = inl refl

module _ (dates : Dates) (services : Str → HourServices) (monitors : List Str) (ttl : ℕ) where
  -- Every page was read of partitions among which are those of each of the 12 buckets of the hour and
  -- each monitor, and the rows that landed are those of the merged hour.
  abbrev pub IsComplete : HourLog → Type 0
  IsComplete log =
      (pks : List Str) × (raw : List (FlowEdge ℕ)) × Covers dates monitors log.hour pks
      × AllRead (services log.hour).partition pks raw
      × Perm log.landed (hour_items dates (services log.hour) log.hour ttl raw)

  write_hour-landed :
      (s : HourServices) (hour : Str) (items : List (Item Ratio))
      → (write_hour dates s hour items).status ≡ marked
      → Perm (write_hour dates s hour items).landed items
  unfolding write_hour
  write_hour-landed s hour [] h = Perm.rfl
  write_hour-landed s hour (item ∷ items) h =
      let w = batch_write_all s.table (item ∷ items) in
      elim (Option-cases w.dropped) [
        | inl e ↦ absurd (ground arith)
        | inr (d, e) ↦
            let none_dropped : w.dropped ≡ some 0 = ground arith in
            rw (none_dropped, write_hour)
              (batch_write_all-landed s.table (item ∷ items) none_dropped)
      ]

  -- An hour is not marked, or it is complete.
  abbrev pub IsSafe : HourLog → Type 0
  IsSafe log = (log.status ≢ marked) ⊎ IsComplete log

  write_hour-hour :
      (s : HourServices) (hour : Str) (items : List (Item Ratio))
      → (write_hour dates s hour items).hour ≡ hour
  unfolding write_hour
  write_hour-hour s hour [] = refl
  write_hour-hour s hour (item ∷ items) = ground arith

  write_hour-IsSafe :
      (hour : Str) (raw : List (FlowEdge ℕ))
      → read_partitions (services hour).partition (partitions_of dates monitors hour) ≡ some raw
      → IsSafe
          (write_hour dates (services hour) hour (hour_items dates (services hour) hour ttl raw))
  write_hour-IsSafe hour raw e =
      let pks = partitions_of dates monitors hour in
      let items = hour_items dates (services hour) hour ttl raw in
      let log = write_hour dates (services hour) hour items in
      elim (Status-cases log.status) [
        | inl n ↦ inl n
        | inr m ↦ inr (
            rw (write_hour-hour (services hour) hour items) (
              pks,
              raw,
              partitions_of-Covers dates monitors hour,
              read_partitions-AllRead (services hour).partition pks raw e,
              write_hour-landed (services hour) hour items m,
            ))
      ]

  roll_hour-IsSafe : (hour : Str) → IsSafe (roll_hour dates (services hour) monitors ttl hour)
  unfolding roll_hour
  roll_hour-IsSafe hour =
      elim (Option-cases
        (read_partitions (services hour).partition (partitions_of dates monitors hour))) [
          | inl e ↦ rw (e, roll_hour) (inl (ground arith))
          | inr (raw, e) ↦ rw (e, roll_hour) (write_hour-IsSafe hour raw e)
        ]

  -- Whatever comes of the first hour, the logs are safe.
  All-cons_or_last :
      (log : HourLog) (logs : List HourLog)
      → IsSafe log
      → All IsSafe logs
      → All IsSafe (if_aborted log.status (log ∷ []) (log ∷ logs))
  All-cons_or_last log logs p h = elim (Aborted-cases log.status) [
    | inl e ↦ rw (e, if_aborted) (p, tt)
    | inr e ↦ rw (e (log ∷ []) (log ∷ logs)) (p, h)
  ]

  pub roll_hours-IsSafe :
      (hours : List Str) → All IsSafe (roll_hours dates services monitors ttl hours)
  unfolding roll_hours
  roll_hours-IsSafe [] = tt
  roll_hours-IsSafe (hour ∷ hours) =
      All-cons_or_last (roll_hour dates (services hour) monitors ttl hour)
        (roll_hours dates services monitors ttl hours) (roll_hour-IsSafe hour)
        (roll_hours-IsSafe hours)

-- Whatever the services answer, of an hour that a step marks as done every page was read of every
-- partition, those of its 12 buckets and all monitors among them, and the rows that landed are, in some
-- order, the rows of the merged edges of what was read.
pub run_rollup_step_complete :
    (dates : Dates) (markers : Pages Str) (services : Str → HourServices) (monitors : List Str)
    (now_ms : ℕ)
    → All
        (IsSafe dates services monitors (now_ms / 1000 + rollup_ttl_seconds))
        (run_rollup_step dates markers services monitors now_ms)
unfolding run_rollup_step
run_rollup_step_complete dates markers services monitors now_ms =
    elim (Option-cases (done_hours [] markers)) [
      | inl e ↦ rw (e, run_rollup_step) tt
      | inr (done, e) ↦
          rw (e, run_rollup_step)
            (roll_hours-IsSafe dates services monitors (now_ms / 1000 + rollup_ttl_seconds) (
              eligible_missing_hours dates now_ms done default_lookback_hours
                default_max_per_cycle))
    ]
