-- ===== src/Collector/Rollup.antt =====
-- The hourly rollup's pure part: collector/src/rollup.ts.
pub mod Hours
pub mod Sums
pub mod Groups
pub mod Ranked
pub mod Cells
use nfm_dashboard.Prelude.{
  ℕ, zero, suc, ◌+◌, ◌-◌, ◌*◌, ◌/◌, Option, none, some, List, [], ◌∷◌, ◌++◌, Bool, true, false, not,
  ite, if◌then◌else◌, ◌==◌, or_else, take,
}
use nfm_dashboard.Prelude.Text.{Str, codes, str_discrete, str_le}
use nfm_dashboard.Prelude.Map.{values, collect}
use nfm_dashboard.Prelude.Group.{group_by}
use nfm_dashboard.Prelude.Set.{contains}
use nfm_dashboard.Prelude.Sort.{sort}
use nfm_dashboard.Prelude.Ratio.{Ratio, whole, ratio_lt}
use nfm_dashboard.Collector.Types.{
  MetricName-discrete, FlowEdge, round_trip_time, metric_text, category_text,
}
use nfm_dashboard.Collector.Dates.{Dates}

abbrev pub hour_ms : ℕ
hour_ms = 3_600_000

abbrev pub five_min_ms : ℕ
five_min_ms = 300_000

abbrev pub close_grace_ms : ℕ
close_grace_ms = 5 * 60_000

abbrev pub default_lookback_hours : ℕ
default_lookback_hours = 168

abbrev pub default_max_per_cycle : ℕ
default_max_per_cycle = 6

abbrev pub default_cap_per_group : ℕ
default_cap_per_group = 200

-- `Array.from({ length: n }, (_, i) => start + (first + i) * step)`
unfoldable pub grid : ℕ → ℕ → ℕ → List ℕ
grid start step zero = []
grid start step (suc n) = start ∷ grid (start + step) step n

module _ (dates : Dates) where
  unfoldable pub hour_bucket_of : ℕ → Str
  hour_bucket_of t = dates.iso (t / hour_ms * hour_ms)

  unfoldable pub texts : List ℕ → List Str
  texts [] = []
  texts (t ∷ ts) = dates.iso t ∷ texts ts

  unfoldable pub five_min_buckets_of_hour : Str → List Str
  five_min_buckets_of_hour hour_bucket = texts (grid (dates.parse hour_bucket) five_min_ms 12)

  -- The loop: `rounds` is what is left of `lookbackHours`, `room` what is left of `maxPerCycle`.
  unfoldable pub missing_from : List Str → ℕ → ℕ → ℕ → ℕ → List Str
  unfolding contains
  missing_from done newest i zero room = []
  missing_from done newest i (suc rounds) room =
      let key = dates.iso (newest - i * hour_ms) in
      let skipped = missing_from done newest (i + 1) rounds room in
      let taken = key ∷ missing_from done newest (i + 1) rounds (room - 1) in
      if room == 0 then [] else if contains str_discrete key done then skipped else taken

  -- The times are far from 0, where the source's subtraction would go below it.
  unfoldable pub eligible_missing_hours : ℕ → List Str → ℕ → ℕ → List Str
  unfolding missing_from
  eligible_missing_hours now done lookback_hours max_per_cycle =
      let newest_eligible_start = (now - close_grace_ms) / hour_ms * hour_ms - hour_ms in
      missing_from done newest_eligible_start 0 lookback_hours max_per_cycle

pub record Acc : Type 0 where
  pub edge : FlowEdge ℕ
  pub sum : ℕ
  pub count : ℕ
  pub latest_bucket : Str

module _ {N : Type 0} where
  unfoldable pub merge_key : FlowEdge N → Str
  merge_key e =
      e.monitor
      ++ codes "|"
      ++ metric_text e.metric
      ++ codes "|"
      ++ category_text e.category
      ++ codes "|"
      ++ e.edge_hash

  unfoldable pub group_key : FlowEdge N → Str
  group_key e =
      e.monitor ++ codes "|" ++ metric_text e.metric ++ codes "|" ++ category_text e.category

-- The first edge of a key opens its entry; a later one adds its value, and replaces the edge if its
-- bucket is later.
unfoldable pub merge_one : Option Acc → FlowEdge ℕ → Acc
merge_one none e = record { edge = e; sum = e.value; count = 1; latest_bucket = e.bucket }
merge_one (some cur) e =
    let added = record cur { sum = cur.sum + e.value; count = cur.count + 1 } in
    if not (str_le e.bucket cur.latest_bucket)
    then record added { edge = e; latest_bucket = e.bucket }
    else added

unfoldable pub merged_value : Acc → Ratio
merged_value x =
    ite (MetricName-discrete x.edge.metric round_trip_time) (record { num = x.sum; den = x.count })
      (whole x.sum)

-- `{ ...edge, bucket: hourBucket, value }`
unfoldable pub merged_edge : Str → Acc → FlowEdge Ratio
unfolding merged_value
merged_edge hour_bucket x = record {
  edge_hash = x.edge.edge_hash;
  monitor = x.edge.monitor;
  metric = x.edge.metric;
  category = x.edge.category;
  bucket = hour_bucket;
  value = merged_value x;
  unit = x.edge.unit;
  a = x.edge.a;
  b = x.edge.b;
  snat_ip = x.edge.snat_ip;
  dnat_ip = x.edge.dnat_ip;
  target_port = x.edge.target_port;
  traversed_constructs = x.edge.traversed_constructs;
}

abbrev pub accumulate : List (FlowEdge ℕ) → List (Str × Acc)
accumulate raw = collect str_discrete merge_key merge_one raw []

unfoldable pub merged_edges : Str → List Acc → List (FlowEdge Ratio)
merged_edges hour_bucket [] = []
merged_edges hour_bucket (x ∷ xs) = merged_edge hour_bucket x ∷ merged_edges hour_bucket xs

-- `y.value - x.value` is negative
unfoldable pub greater_first : FlowEdge Ratio → FlowEdge Ratio → Bool
greater_first x y = ratio_lt y.value x.value

unfoldable pub top_of_groups : ℕ → List (List (FlowEdge Ratio)) → List (FlowEdge Ratio)
top_of_groups cap [] = []
top_of_groups cap (group ∷ groups) = take cap (sort greater_first group) ++ top_of_groups cap groups

unfoldable pub merge_hour_edges : List (FlowEdge ℕ) → Str → ℕ → List (FlowEdge Ratio)
unfolding top_of_groups merged_edges
merge_hour_edges raw hour_bucket cap_per_group =
    top_of_groups cap_per_group (
      values (group_by str_discrete group_key (merged_edges hour_bucket (values (accumulate raw)))))
