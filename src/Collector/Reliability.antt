-- ===== src/Collector/Reliability.antt =====
-- Reliability breaches: collector/src/reliability-alert.ts. `localeCompare` is a parameter.
pub mod Totals
pub mod Detect
use nfm_dashboard.Prelude.{
  ℕ, ◌+◌, ◌*◌, ◌^◌, max, Option, none, some, List, [], ◌∷◌, ◌++◌, map, Bool, not, ◌&&◌, ◌||◌,
  filter, if◌then◌else◌, or_else, first_some, ◌==◌,
}
use nfm_dashboard.Prelude.Text.{Str, codes, str_discrete, truthy}
use nfm_dashboard.Prelude.Map.{get, put}
use nfm_dashboard.Prelude.Set.{contains, to_set}
use nfm_dashboard.Prelude.Sort.{sort}
use nfm_dashboard.Prelude.Ratio.{Ratio, whole, ratio_lt}
use nfm_dashboard.Collector.Types.{
  EndpointInfo, FlowEdge, data_transferred, retransmissions, timeouts, round_trip_time,
}

abbrev pub unknown : Str
unknown = codes "unknown"

abbrev pub retrans_threshold : Ratio
retrans_threshold = whole 10

abbrev pub timeout_threshold : Ratio
timeout_threshold = whole 5

pub record BreachRow : Type 0 where
  pub key : Str
  pub retrans_rate : Ratio
  pub timeout_rate : Ratio

unfoldable pub entity_key : EndpointInfo → Str
entity_key e = elim (truthy (first_some e.service_name (first_some e.pod_name e.ip))) [
  | some name ↦ or_else e.pod_namespace unknown ++ codes "/" ++ name
  | none ↦ unknown
]

-- `events / Math.max(bytes / 1e9, 1e-9)`, with the numerator and the denominator times 10^9
unfoldable pub rate_per_gb : ℕ → ℕ → Ratio
rate_per_gb events bytes =
    if bytes == 0 then whole 0 else record { num = events * 10 ^ 9; den = max bytes 1 }

pub record Slot : Type 0 where
  pub bytes : ℕ
  pub retransmissions : ℕ
  pub timeouts : ℕ

abbrev pub empty_slot : Slot
empty_slot = record { bytes = 0; retransmissions = 0; timeouts = 0 }

unfoldable pub add_value : FlowEdge ℕ → Slot → Slot
add_value f slot = elim f.metric [
  | data_transferred ↦ record slot { bytes = slot.bytes + f.value }
  | retransmissions ↦ record slot { retransmissions = slot.retransmissions + f.value }
  | timeouts ↦ record slot { timeouts = slot.timeouts + f.value }
  | round_trip_time ↦ slot
]

-- The inner loop: the edge counts for each of the keys.
unfoldable pub count_for : FlowEdge ℕ → List Str → List (Str × Slot) → List (Str × Slot)
unfolding add_value
count_for f [] acc = acc
count_for f (key ∷ keys) acc =
    let slot = or_else (get str_discrete key acc) empty_slot in
    count_for f keys (put str_discrete key (add_value f slot) acc)

-- The two entities of an edge, once if they are the same.
unfoldable pub entities : FlowEdge ℕ → List Str
entities f = to_set str_discrete (entity_key f.a ∷ entity_key f.b ∷ [])

unfoldable pub count_edge : List (Str × Slot) → FlowEdge ℕ → List (Str × Slot)
unfolding entities
count_edge acc f = elim f.metric [ round_trip_time ↦ acc | _ ↦ count_for f (entities f) acc ]

unfoldable pub count_all : List (Str × Slot) → List (FlowEdge ℕ) → List (Str × Slot)
count_all acc [] = acc
count_all acc (f ∷ edges) = count_all (count_edge acc f) edges

unfoldable pub is_breach : Slot → Bool
unfolding rate_per_gb ratio_lt
is_breach s =
    ratio_lt retrans_threshold (rate_per_gb s.retransmissions s.bytes)
    || ratio_lt timeout_threshold (rate_per_gb s.timeouts s.bytes)

abbrev pub row_of : Str → Slot → BreachRow
row_of key s = record {
  key = key;
  retrans_rate = rate_per_gb s.retransmissions s.bytes;
  timeout_rate = rate_per_gb s.timeouts s.bytes;
}

unfoldable pub breach_rows : List (Str × Slot) → List BreachRow
breach_rows [] = []
breach_rows ((key, s) ∷ acc) =
    if is_breach s then row_of key s ∷ breach_rows acc else breach_rows acc

module _ (locale_lt : Str → Str → Bool) where
  -- `b.retransRate - a.retransRate || a.key.localeCompare(b.key)` is negative
  unfoldable pub row_before : BreachRow → BreachRow → Bool
  row_before a b =
      ratio_lt b.retrans_rate a.retrans_rate
      || (not (ratio_lt a.retrans_rate b.retrans_rate) && locale_lt a.key b.key)

  unfoldable pub detect_reliability_breaches : List (FlowEdge ℕ) → List BreachRow
  detect_reliability_breaches edges = sort row_before (breach_rows (count_all [] edges))

pub record BreachStateDiff : Type 0 where
  pub started : List BreachRow
  pub resolved : List Str

unfoldable pub diff_breach_state : List BreachRow → List Str → BreachStateDiff
diff_breach_state current prior_keys = record {
  started = filter (λ r. not (contains str_discrete r.key prior_keys)) current;
  resolved = filter (λ k. not (contains str_discrete k (map (λ r. r.key) current))) prior_keys;
}
