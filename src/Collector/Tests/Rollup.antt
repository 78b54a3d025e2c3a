-- ===== src/Collector/Tests/Rollup.antt =====
-- The hours of a cycle and the merge of an hour.
use mathlib.Core.List.{Perm}
use nfm_dashboard.Prelude.{
  ℕ, ◌+◌, ◌*◌, ◌<◌, min, length, List, [], ◌∷◌, ◌++◌, map, not, Bool, true, ◌≡◌, ◌↔◌, refl, take,
  filter, All, arith,
}
use nfm_dashboard.Prelude.Text.{codes, str_discrete, str_le}
use nfm_dashboard.Prelude.Map.{get, put, collect}
use nfm_dashboard.Prelude.Group.{push}
use nfm_dashboard.Prelude.Set.{contains}
use nfm_dashboard.Prelude.Sort.{sort}
use nfm_dashboard.Prelude.Ratio.{Ratio, ratio_lt}
use nfm_dashboard.Collector.Types.{
  FlowEdge, intra_az, data_transferred, round_trip_time, MetricName-discrete, metric_text,
  category_text,
}
use nfm_dashboard.Collector.Rollup.{
  hour_ms, close_grace_ms, missing_from, eligible_missing_hours, merge_key, group_key, merge_one,
  merged_value, merged_edge, merged_edges, greater_first, top_of_groups, merge_hour_edges,
}
use nfm_dashboard.Collector.Rollup.Hours.{
  hour_keys, IsClosedHour, newest_closed, eligible_missing_hours_exact,
}
use nfm_dashboard.Collector.Rollup.Groups.{hour_edges}
use nfm_dashboard.Collector.Rollup.Cells.{IsOf, IsDescending, NotOver, merge_hour_edges_cells}
use nfm_dashboard.Collector.Tests.Data.{edge_of, unit_dates}

abbrev now : ℕ
now = 1_000 * hour_ms + 6 * 60_000

newest_two :
    eligible_missing_hours unit_dates now ((998 * hour_ms ∷ []) ∷ []) 168 2
    ≡ (999 * hour_ms ∷ []) ∷ (997 * hour_ms ∷ []) ∷ []
unfolding eligible_missing_hours missing_from contains str_discrete
newest_two = refl

eligible_missing_hours_exact_example :
    (eligible_missing_hours unit_dates now [] 168 6
      ≡ take 6 (
          filter
            (λ k. not (contains str_discrete k []))
            (hour_keys unit_dates (newest_closed now * hour_ms) 0 168)))
    × All (IsClosedHour unit_dates now) (hour_keys unit_dates (newest_closed now * hour_ms) 0 168)
    × (now < newest_closed now * hour_ms + hour_ms + hour_ms + close_grace_ms)
eligible_missing_hours_exact_example =
    eligible_missing_hours_exact unit_dates now 168 6 [] (omega arith)

abbrev raw_edges : List (FlowEdge ℕ)
raw_edges =
    edge_of data_transferred 3
    ∷ edge_of round_trip_time 10
    ∷ edge_of data_transferred 4
    ∷ edge_of round_trip_time 20
    ∷ []

sum_and_mean :
    map (λ h. h.value) (merge_hour_edges raw_edges (codes "hour") 200)
    ≡ record { num = 7; den = 1 } ∷ record { num = 30; den = 2 } ∷ []
unfolding merge_hour_edges top_of_groups merged_edges merged_edge merged_value merge_one merge_key
    group_key greater_first collect get put push sort ratio_lt str_discrete str_le
    MetricName-discrete metric_text category_text
sum_and_mean = refl

merge_hour_edges_cells_example :
    let kept = merge_hour_edges raw_edges (codes "hour") 1 in
    let whole = hour_edges raw_edges (codes "hour") in
    (q : FlowEdge Ratio → Bool) × (others : List (FlowEdge Ratio)) × ((h : FlowEdge Ratio)
      → (q h ≡ true) ↔ IsOf (codes "m") data_transferred intra_az h)
    × Perm (filter q kept ++ others) (filter q whole)
    × (length (filter q kept) ≡ min 1 (length (filter q whole)))
    × IsDescending (filter q kept)
    × All (λ y. All (NotOver y) (filter q kept)) others
merge_hour_edges_cells_example =
    merge_hour_edges_cells raw_edges (codes "hour") 1 (codes "m") data_transferred intra_az
