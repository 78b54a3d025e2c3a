-- ===== src/Dashboard/Reliability.antt =====
-- The reliability lens: app/src/lib/analytics/reliability.ts. `localeCompare` is a parameter, and a
-- rate is the exact quotient.
pub mod Lockstep
use nfm_dashboard.Prelude.{
  ℕ, suc, ◌+◌, ◌*◌, ◌^◌, Option, none, some, List, [], ◌∷◌, ◌++◌, map, filter, take, Bool, true,
  false, not, ◌&&◌, ◌||◌, ltb, leb, ◌==◌, if◌then◌else◌, or_else, ite,
}
use nfm_dashboard.Prelude.Text.{Str, codes, str_discrete, truthy}
use nfm_dashboard.Prelude.Map.{get, put}
use nfm_dashboard.Prelude.Set.{to_set}
use nfm_dashboard.Prelude.Sort.{sort}
use nfm_dashboard.Prelude.Ratio.{Ratio, whole, ratio_lt}
use nfm_dashboard.Collector.Types.{
  FlowEdge, data_transferred, retransmissions, timeouts, round_trip_time,
}
use nfm_dashboard.Collector.Reliability.{Slot, empty_slot}
use nfm_dashboard.Dashboard.Aggregate.{EntityKind, service_kind, entity_key, rate_per_gb}

abbrev pub default_retrans_rate : Ratio
default_retrans_rate = whole 10

abbrev pub default_timeout_rate : Ratio
default_timeout_rate = whole 5

pub record ReliabilityRow : Type 0 where
  pub key : Str
  pub label : Str
  pub bytes : ℕ
  pub retransmissions : ℕ
  pub timeouts : ℕ
  pub retrans_rate : Ratio
  pub timeout_rate : Ratio

-- The two entities of a flow, once if they are the same.
unfoldable pub ends_by : EntityKind → FlowEdge ℕ → List Str
ends_by kind f = to_set str_discrete (entity_key f.a kind ∷ entity_key f.b kind ∷ [])

unfoldable pub add_event : FlowEdge ℕ → Slot → Slot
add_event f slot = elim f.metric [
  | data_transferred ↦ record slot { bytes = slot.bytes + f.value }
  | retransmissions ↦ record slot { retransmissions = slot.retransmissions + f.value }
  | timeouts ↦ record slot { timeouts = slot.timeouts + f.value }
  | round_trip_time ↦ slot
]

-- The inner loop: the flow counts for each of the keys.
unfoldable pub add_events : FlowEdge ℕ → List Str → List (Str × Slot) → List (Str × Slot)
unfolding add_event
add_events f [] acc = acc
add_events f (key ∷ keys) acc =
    let slot = or_else (get str_discrete key acc) empty_slot in
    add_events f keys (put str_discrete key (add_event f slot) acc)

unfoldable pub events_by : EntityKind → List (FlowEdge ℕ) → List (Str × Slot) → List (Str × Slot)
unfolding ends_by add_events
events_by kind [] acc = acc
events_by kind (f ∷ flows) acc =
    events_by kind flows
      (elim f.metric [ round_trip_time ↦ acc | _ ↦ add_events f (ends_by kind f) acc ])

unfoldable pub row_of_slot : Str × Slot → ReliabilityRow
row_of_slot (key, s) = record {
  key = key;
  label = key;
  bytes = s.bytes;
  retransmissions = s.retransmissions;
  timeouts = s.timeouts;
  retrans_rate = rate_per_gb s.retransmissions s.bytes;
  timeout_rate = rate_per_gb s.timeouts s.bytes;
}

-- `Math.max(a, b)` and `a / b`
abbrev pub ratio_max : Ratio → Ratio → Ratio
ratio_max a b = if ratio_lt a b then b else a

abbrev pub ratio_div : Ratio → Ratio → Ratio
ratio_div a b = record { num = a.num * b.den; den = a.den * b.num }

abbrev pub tiny : Ratio
tiny = record { num = 1; den = 10 ^ 9 }

-- The first of two comparisons that is not zero decides.
abbrev pub descending : Ratio → Ratio → Bool → Bool
descending x y next = ratio_lt y x || (not (ratio_lt x y) && next)

pub record BreachOpts : Type 0 where
  pub retrans_rate : Option Ratio
  pub timeout_rate : Option Ratio

abbrev pub no_opts : BreachOpts
no_opts = record { retrans_rate = none; timeout_rate = none }

abbrev pub severity_of : BreachOpts → ReliabilityRow → Ratio
severity_of opts r =
    ratio_max
      (ratio_div r.retrans_rate (ratio_max (or_else opts.retrans_rate default_retrans_rate) tiny))
      (ratio_div r.timeout_rate (ratio_max (or_else opts.timeout_rate default_timeout_rate) tiny))

unfoldable pub exceeds : BreachOpts → ReliabilityRow → Bool
exceeds opts r =
    ratio_lt (or_else opts.retrans_rate default_retrans_rate) r.retrans_rate
    || ratio_lt (or_else opts.timeout_rate default_timeout_rate) r.timeout_rate

module _ (locale_lt : Str → Str → Bool) where
  abbrev pub rate_order : ReliabilityRow → ReliabilityRow → Bool
  rate_order x y =
      descending x.retrans_rate y.retrans_rate
        (descending x.timeout_rate y.timeout_rate (locale_lt x.key y.key))

  unfoldable pub rate_per : List (FlowEdge ℕ) → EntityKind → List ReliabilityRow
  unfolding events_by row_of_slot
  rate_per flows kind = sort rate_order (map row_of_slot (events_by kind flows []))

  abbrev pub severity_order : BreachOpts → ReliabilityRow → ReliabilityRow → Bool
  severity_order opts x y =
      descending (severity_of opts x) (severity_of opts y) (locale_lt x.key y.key)

  unfoldable pub threshold_breaches : List ReliabilityRow → BreachOpts → List ReliabilityRow
  unfolding exceeds
  threshold_breaches rows opts = sort (severity_order opts) (filter (exceeds opts) rows)

-- A CloudWatch series: its label and its points.
pub record Series : Type 0 where
  pub label : Str
  pub points : List (Str × ℕ)

-- The health indicator as steps of 0 and 1.
unfoldable pub nhi_timeline : Option Series → Series
nhi_timeline none = record { label = codes "nhi"; points = [] }
nhi_timeline (some s) = elim s.points [
  | [] ↦ record { label = codes "nhi"; points = [] }
  | _ ∷ _ ↦ record {
    label = or_else (truthy (some s.label)) (codes "nhi");
    points = map (λ (p : Str × ℕ). (p.0, if ltb 0 p.1 then 1 else 0)) s.points;
  }
]

-- The lanes of the monitors: whether each is healthy at each time.
unfoldable pub nhi_swimlanes : List (Str × Series) → List (Str × List (Str × Bool))
nhi_swimlanes [] = []
nhi_swimlanes ((monitor, series) ∷ lanes) =
    (monitor, map (λ (p : Str × ℕ). (p.0, p.1 == 0)) series.points) ∷ nhi_swimlanes lanes

unfoldable pub edge_label : FlowEdge ℕ → Str
edge_label f =
    let a = entity_key f.a service_kind in
    let b = entity_key f.b service_kind in
    ite (str_discrete a b) a (a ++ (32 ∷ 8594 ∷ 32 ∷ []) ++ b)

pub record ScatterSlot : Type 0 where
  pub label : Str
  pub rtt_sum : ℕ
  pub rtt_count : ℕ
  pub retransmissions : ℕ
  pub bytes : ℕ

pub record ScatterPoint : Type 0 where
  pub key : Str
  pub label : Str
  pub rtt : Ratio
  pub retransmissions : ℕ
  pub bytes : ℕ

abbrev pub new_scatter : FlowEdge ℕ → ScatterSlot
new_scatter f = record {
  label = edge_label f;
  rtt_sum = 0;
  rtt_count = 0;
  retransmissions = 0;
  bytes = 0;
}

unfoldable pub add_sample : FlowEdge ℕ → ScatterSlot → ScatterSlot
add_sample f slot = elim f.metric [
  | round_trip_time ↦ record slot {
    rtt_sum = slot.rtt_sum + f.value;
    rtt_count = suc slot.rtt_count;
  }
  | retransmissions ↦ record slot { retransmissions = slot.retransmissions + f.value }
  | data_transferred ↦ record slot { bytes = slot.bytes + f.value }
  | timeouts ↦ slot
]

unfoldable pub samples : List (FlowEdge ℕ) → List (Str × ScatterSlot) → List (Str × ScatterSlot)
unfolding add_sample edge_label
samples [] acc = acc
samples (f ∷ flows) acc =
    let slot = or_else (get str_discrete f.edge_hash acc) (new_scatter f) in
    samples flows (put str_discrete f.edge_hash (add_sample f slot) acc)

-- The edges without a sample of the round trip time are left out.
unfoldable pub scatter_points : List (Str × ScatterSlot) → List ScatterPoint
scatter_points [] = []
scatter_points ((key, s) ∷ acc) =
    let rest = scatter_points acc in
    if s.rtt_count == 0
    then rest
    else record {
      key = key;
      label = s.label;
      rtt = record { num = s.rtt_sum; den = s.rtt_count };
      retransmissions = s.retransmissions;
      bytes = s.bytes;
    }
      ∷ rest

module _ (locale_lt : Str → Str → Bool) where
  abbrev pub scatter_order : ScatterPoint → ScatterPoint → Bool
  scatter_order x y =
      ltb y.retransmissions x.retransmissions
      || ((x.retransmissions == y.retransmissions)
          && (ltb y.bytes x.bytes || ((x.bytes == y.bytes) && locale_lt x.key y.key)))

  unfoldable pub rtt_vs_retrans : List (FlowEdge ℕ) → ℕ → List ScatterPoint
  unfolding samples scatter_points
  rtt_vs_retrans flows sample_cap =
      take sample_cap (sort scatter_order (scatter_points (samples flows [])))
