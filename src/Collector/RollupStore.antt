-- ===== src/Collector/RollupStore.antt =====
-- The rollup of the closed hours: collector/src/rollup-store.ts. The services are given by their
-- answers.
pub mod Reads
pub mod Complete
use nfm_dashboard.Prelude.{
  ℕ, ◌+◌, ◌*◌, ◌/◌, Option, none, some, List, [], ◌∷◌, ◌++◌, map, flat_map, filter, Bool, true,
  false, ltb, if◌then◌else◌,
}
use nfm_dashboard.Prelude.Text.{Str, codes, str_discrete}
use nfm_dashboard.Prelude.Set.{add_all}
use nfm_dashboard.Prelude.Ratio.{Ratio}
use nfm_dashboard.Collector.Types.{FlowEdge}
use nfm_dashboard.Collector.Dates.{Dates}
use nfm_dashboard.Collector.Rollup.{
  eligible_missing_hours, five_min_buckets_of_hour, merge_hour_edges, default_lookback_hours,
  default_max_per_cycle, default_cap_per_group,
}
use nfm_dashboard.Collector.Storage.Items.{Item, hflow_item}
use nfm_dashboard.Collector.Storage.Batch.{Table, batch_write_all}

abbrev pub rollup_ttl_seconds : ℕ
rollup_ttl_seconds = 15 * 24 * 3600

-- The answers to the calls of one paged query: a page is the last one or names the next; a call may
-- fail.
pub data Pages (A : Type 0) : Type 0 where
  failed : Pages A
  last : List A → Pages A
  page : List A → Pages A → Pages A

module _ {A : Type 0} where
  -- `do { …; items.push(...res.Items); key = res.LastEvaluatedKey; } while (key)`
  unfoldable pub read_pages : List A → Pages A → Option (List A)
  read_pages items failed = none
  read_pages items (last rows) = some (items ++ rows)
  read_pages items (page rows rest) = read_pages (items ++ rows) rest

-- The same loop into a Set.
unfoldable pub done_hours : List Str → Pages Str → Option (List Str)
unfolding add_all
done_hours done failed = none
done_hours done (last rows) = some (add_all str_discrete done rows)
done_hours done (page rows rest) = done_hours (add_all str_discrete done rows) rest

-- What the services answer for one hour: to the query of each partition, to the writes and to the
-- marker; and what else the rows that are read carry.
pub record HourServices : Type 0 where
  pub partition : Str → Pages (FlowEdge ℕ)
  pub table : Table (Item Ratio)
  pub marker_succeeds : Bool
  pub carried : FlowEdge Ratio → List (Str × Str)

-- The partitions of the hour in turn.
unfoldable pub read_partitions : (Str → Pages (FlowEdge ℕ)) → List Str → Option (List (FlowEdge ℕ))
unfolding read_pages
read_partitions partition [] = some []
read_partitions partition (pk ∷ pks) = elim (read_pages [] (partition pk)) [
  | none ↦ none
  | some rows ↦ elim (read_partitions partition pks) [
    | none ↦ none
    | some rest ↦ some (rows ++ rest)
  ]
]

pub data Status : Type 0 where
  marked incomplete aborted : Status

-- What was done for an hour: the rows that landed, and whether the marker was written, withheld, or
-- a call failed.
pub record HourLog : Type 0 where
  pub hour : Str
  pub landed : List (Item Ratio)
  pub status : Status

module _ (dates : Dates) where
  abbrev pub partitions_of : List Str → Str → List Str
  partitions_of monitors hour =
      flat_map (λ b. map (λ m. codes "FLOW#" ++ b ++ codes "#" ++ m) monitors)
        (five_min_buckets_of_hour dates hour)

  abbrev pub hour_items : HourServices → Str → ℕ → List (FlowEdge ℕ) → List (Item Ratio)
  hour_items services hour ttl raw =
      map (λ e. hflow_item (services.carried e) e ttl)
        (merge_hour_edges raw hour default_cap_per_group)

  -- The marker is put last.
  abbrev pub mark : HourServices → Str → List (Item Ratio) → HourLog
  mark services hour landed = record {
    hour = hour;
    landed = landed;
    status = if services.marker_succeeds then marked else aborted;
  }

  -- The write of the rows of an hour and its marker.
  unfoldable pub write_hour : HourServices → Str → List (Item Ratio) → HourLog
  unfolding batch_write_all
  write_hour services hour [] = mark services hour []
  write_hour services hour (item ∷ items) =
      let w = batch_write_all services.table (item ∷ items) in
      elim w.dropped [
        | none ↦ record { hour = hour; landed = w.landed; status = aborted }
        | some dropped ↦
            if ltb 0 dropped
            then record { hour = hour; landed = w.landed; status = incomplete }
            else mark services hour w.landed
      ]

  unfoldable pub roll_hour : HourServices → List Str → ℕ → Str → HourLog
  unfolding write_hour read_partitions
  roll_hour services monitors ttl hour =
      elim (read_partitions services.partition (partitions_of monitors hour)) [
        | none ↦ record { hour = hour; landed = []; status = aborted }
        | some raw ↦ write_hour services hour (hour_items services hour ttl raw)
      ]

  -- The loop over the hours ends with the first call that fails.
  unfoldable pub roll_hours : (Str → HourServices) → List Str → ℕ → List Str → List HourLog
  unfolding roll_hour
  roll_hours services monitors ttl [] = []
  roll_hours services monitors ttl (hour ∷ hours) =
      let log = roll_hour (services hour) monitors ttl hour in
      elim log.status [ aborted ↦ log ∷ [] | _ ↦ log ∷ roll_hours services monitors ttl hours ]

  unfoldable pub run_rollup_step : Pages Str → (Str → HourServices) → List Str → ℕ → List HourLog
  unfolding roll_hours done_hours
  run_rollup_step markers services monitors now_ms = elim (done_hours [] markers) [
    | none ↦ []
    | some done ↦
        roll_hours services monitors (now_ms / 1000 + rollup_ttl_seconds)
          (eligible_missing_hours dates now_ms done default_lookback_hours default_max_per_cycle)
  ]

  -- The hours that a step marks as done.
  abbrev pub hours_done : List HourLog → List Str
  hours_done [] = []
  hours_done (log ∷ logs) = elim log.status [
    | marked ↦ log.hour ∷ hours_done logs
    | _ ↦ hours_done logs
  ]
