-- ===== src/Dashboard/EdgeHealth.antt =====
-- The health of the links between entities: app/src/lib/analytics/edge-health.ts.
pub mod Closed
use nfm_dashboard.Prelude.{
  ℕ, ◌+◌, ◌*◌, ◌≤◌, ◌<◌, Option, none, some, List, [], ◌∷◌, ◌++◌, map, Bool, true, false, not, ◌||◌,
  ◌&&◌, leb, if◌then◌else◌, or_else, ◌≡◌, ◌↔◌, ◌⊎◌, inl, inr, refl, All, All-of_Elem, Elem, arith,
  Option-cases,
}
use nfm_dashboard.Prelude.Text.{Str, codes, str_discrete, str_le, truthy}
use nfm_dashboard.Prelude.Map.{get, put, values, keys, put-Distinct}
use nfm_dashboard.Prelude.Set.{add, add-Distinct}
use nfm_dashboard.Prelude.Sort.{sort}
use nfm_dashboard.Prelude.Ratio.{Ratio, whole, ratio_lt}
use nfm_dashboard.Collector.Types.{
  MetricName, data_transferred, retransmissions, timeouts, round_trip_time, EndpointInfo, FlowEdge,
}
use nfm_dashboard.Dashboard.Aggregate.{rate_per_gb}

pub data HealthStatus : Type 0 where
  healthy warn danger : HealthStatus

pub data HealthLevel : Type 0 where
  service_level namespace_level az_level vpc_level : HealthLevel

pub record HealthCell : Type 0 where
  pub row : Str
  pub col : Str
  pub status : HealthStatus
  pub retrans_rate : Ratio
  pub timeout_rate : Ratio
  pub bytes : ℕ

pub record HealthMatrix : Type 0 where
  pub rows : List Str
  pub cols : List Str
  pub cells : List HealthCell

pub record HealthThresholds : Type 0 where
  pub retrans_warn : Option Ratio
  pub retrans_danger : Option Ratio
  pub timeout_warn : Option Ratio
  pub timeout_danger : Option Ratio

unfoldable pub level_key : EndpointInfo → HealthLevel → Option Str
level_key e level = elim level [
  | service_level ↦ e.service_name
  | namespace_level ↦ e.pod_namespace
  | az_level ↦ e.az
  | vpc_level ↦ e.vpc_id
]

-- The two names with the unit separator, whose code is 31.
abbrev pub pair_key : Str → Str → Str
pair_key row col = row ++ 31 ∷ col

pub record HealthSlot : Type 0 where
  pub row : Str
  pub col : Str
  pub bytes : ℕ
  pub retrans : ℕ
  pub timeouts : ℕ

abbrev pub new_slot : Str → Str → HealthSlot
new_slot row col = record { row = row; col = col; bytes = 0; retrans = 0; timeouts = 0 }

unfoldable pub add_flow : FlowEdge ℕ → HealthSlot → HealthSlot
add_flow f slot = elim f.metric [
  | data_transferred ↦ record slot { bytes = slot.bytes + f.value }
  | retransmissions ↦ record slot { retrans = slot.retrans + f.value }
  | timeouts ↦ record slot { timeouts = slot.timeouts + f.value }
  | round_trip_time ↦ slot
]

pub record HealthState : Type 0 where
  pub slots : List (Str × HealthSlot)
  pub row_set : List Str
  pub col_set : List Str

unfoldable pub see_flow : HealthLevel → HealthState → FlowEdge ℕ → HealthState
unfolding level_key add_flow add
see_flow level acc f = elim (truthy (level_key f.a level)) [
  | none ↦ acc
  | some row ↦ elim (truthy (level_key f.b level)) [
    | none ↦ acc
    | some col ↦
        let key = pair_key row col in
        let slot = or_else (get str_discrete key acc.slots) (new_slot row col) in
        record {
          slots = put str_discrete key (add_flow f slot) acc.slots;
          row_set = add str_discrete acc.row_set row;
          col_set = add str_discrete acc.col_set col;
        }
  ]
]

unfoldable pub see_flows : HealthLevel → HealthState → List (FlowEdge ℕ) → HealthState
unfolding see_flow
see_flows level acc [] = acc
see_flows level acc (f ∷ flows) = see_flows level (see_flow level acc f) flows

-- `rate >= threshold`
abbrev pub reaches : Ratio → Ratio → Bool
reaches rate threshold = not (ratio_lt rate threshold)

unfoldable pub status_of : HealthThresholds → Ratio → Ratio → HealthStatus
status_of opts retrans_rate timeout_rate =
    if reaches retrans_rate (or_else opts.retrans_danger (whole 10))
      || reaches timeout_rate (or_else opts.timeout_danger (whole 10))
    then danger
    else (if reaches retrans_rate (or_else opts.retrans_warn (whole 5))
          || reaches timeout_rate (or_else opts.timeout_warn (whole 5))
        then warn
        else healthy)

unfoldable pub cell_of : HealthThresholds → HealthSlot → HealthCell
unfolding status_of rate_per_gb
cell_of opts s =
    let retrans_rate = rate_per_gb s.retrans s.bytes in
    let timeout_rate = rate_per_gb s.timeouts s.bytes in
    record {
      row = s.row;
      col = s.col;
      status = status_of opts retrans_rate timeout_rate;
      retrans_rate = retrans_rate;
      timeout_rate = timeout_rate;
      bytes = s.bytes;
    }

-- `[...set].sort()`
abbrev pub ascending : List Str → List Str
ascending = sort (λ s t. not (str_le t s))

unfoldable pub build_health_matrix :
    List (FlowEdge ℕ) → HealthLevel → HealthThresholds → HealthMatrix
unfolding see_flows cell_of
build_health_matrix flows level opts =
    let acc = see_flows level (record { slots = []; row_set = []; col_set = [] }) flows in
    record {
      rows = ascending acc.row_set;
      cols = ascending acc.col_set;
      cells = map (cell_of opts) (values acc.slots);
    }
