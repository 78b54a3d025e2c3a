-- ===== src/Dashboard/Aggregate.antt =====
-- What the analytics share: app/src/lib/analytics/aggregate.ts.
use nfm_dashboard.Prelude.{
  ℕ, zero, suc, ◌+◌, ◌-◌, ◌*◌, ◌/◌, ◌^◌, min, max, none, some, List, [], ◌∷◌, ◌++◌, length, ite,
  or_else, first_some, if◌then◌else◌, ◌==◌,
}
use nfm_dashboard.Prelude.Text.{Str, codes, truthy}
use nfm_dashboard.Prelude.Ratio.{Ratio, whole}
use nfm_dashboard.Collector.Types.{EndpointInfo, FlowEdge, MetricName, MetricName-discrete}

pub data EntityKind : Type 0 where
  pod_kind service_kind namespace_kind az_kind azpair_kind vpc_kind : EntityKind

abbrev pub unknown : Str
unknown = codes "unknown"

unfoldable pub entity_key : EndpointInfo → EntityKind → Str
entity_key e kind = elim kind [
  | pod_kind ↦ elim (truthy e.pod_name) [
    | some pod ↦ or_else e.pod_namespace unknown ++ codes "/" ++ pod
    | none ↦ unknown
  ]
  | service_kind ↦ elim (truthy (first_some e.service_name (first_some e.pod_name e.ip))) [
    | some name ↦ or_else e.pod_namespace unknown ++ codes "/" ++ name
    | none ↦ unknown
  ]
  | namespace_kind ↦ or_else e.pod_namespace unknown
  | az_kind ↦ or_else e.az unknown
  | azpair_kind ↦ unknown
  | vpc_kind ↦ or_else e.vpc_id unknown
]

-- The element at a place of a list, or 0 beyond its end.
abbrev pub nth : ℕ → List ℕ → ℕ
nth i [] = 0
nth zero (x ∷ xs) = x
nth (suc i) (x ∷ xs) = nth i xs

-- The rank `ceil(p / 100 * n)` of a whole percentage.
unfoldable pub percentile : List ℕ → ℕ → ℕ
percentile sorted_asc p =
    let rank = (p * length sorted_asc + 99) / 100 in
    if length sorted_asc == 0 then 0 else nth (min (rank - 1) (length sorted_asc - 1)) sorted_asc

unfoldable pub rate_per_gb : ℕ → ℕ → Ratio
rate_per_gb events bytes =
    if bytes == 0 then whole 0 else record { num = events * 10 ^ 9; den = max bytes 1 }

unfoldable pub sum_by_metric : List (FlowEdge ℕ) → MetricName → ℕ
sum_by_metric [] metric = 0
sum_by_metric (f ∷ flows) metric =
    let rest = sum_by_metric flows metric in
    ite (MetricName-discrete f.metric metric) (f.value + rest) rest
