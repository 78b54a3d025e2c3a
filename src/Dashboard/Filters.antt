-- ===== src/Dashboard/Filters.antt =====
-- The filters of the analytics pages: app/src/lib/analytics/filters.ts. A number of the query is
-- given as a quotient, or as none where it is not finite or negative; a field of an unknown record is
-- given by its text, or as none where it is missing or no text.
pub mod Bounds
use nfm_dashboard.Prelude.{
  ℕ, ◌+◌, ◌*◌, ◌/◌, min, max, Option, none, some, List, [], ◌∷◌, ◌++◌, map, filter, length, Bool,
  true, false, not, ◌||◌, ◌&&◌, leb, ite, if◌then◌else◌, or_else,
}
use nfm_dashboard.Prelude.Text.{Str, codes, str_discrete, truthy, decimal}
use nfm_dashboard.Prelude.Set.{to_set}
use nfm_dashboard.Prelude.Ratio.{Ratio}
use nfm_dashboard.Collector.Types.{
  MetricName, data_transferred, retransmissions, timeouts, round_trip_time, metric_text,
  category_text, FlowEdge, EndpointInfo,
}

pub data TimeRange : Type 0 where
  minutes_15 hour_1 hours_3 hours_24 days_7 : TimeRange

unfoldable pub range_text : TimeRange → Str
range_text r = elim r [
  | minutes_15 ↦ codes "15m"
  | hour_1 ↦ codes "1h"
  | hours_3 ↦ codes "3h"
  | hours_24 ↦ codes "24h"
  | days_7 ↦ codes "7d"
]

pub record AnalyticsFilters : Type 0 where
  pub range : TimeRange
  pub cluster : Str
  pub namespace : Str
  pub category : Str
  pub metric : MetricName

abbrev pub time_ranges : List TimeRange
time_ranges = minutes_15 ∷ hour_1 ∷ hours_3 ∷ hours_24 ∷ days_7 ∷ []

abbrev pub metric_names : List MetricName
metric_names = data_transferred ∷ retransmissions ∷ timeouts ∷ round_trip_time ∷ []

abbrev pub all : Str
all = codes "all"

abbrev pub default_filters : AnalyticsFilters
default_filters = record {
  range = hour_1;
  cluster = all;
  namespace = all;
  category = all;
  metric = data_transferred;
}

unfoldable pub range_to_buckets : TimeRange → ℕ
range_to_buckets r = elim r [
  | minutes_15 ↦ 3
  | hour_1 ↦ 12
  | hours_3 ↦ 36
  | hours_24 ↦ 288
  | days_7 ↦ 2016
]

abbrev pub max_buckets : ℕ
max_buckets = 2016

abbrev pub default_buckets : ℕ
default_buckets = 12

unfoldable pub buckets_from : Option Ratio → ℕ
buckets_from none = default_buckets
buckets_from (some raw) =
    if leb raw.den raw.num then max 1 (min (raw.num / raw.den) max_buckets) else default_buckets

-- A filter value that asks for something: present, not empty and not `all`.
abbrev pub wanted : Option Str → Option Str
wanted o = elim (truthy o) [ none ↦ none | some s ↦ ite (str_discrete s all) none (some s) ]

abbrev pub is_text : Str → Option Str → Bool
is_text s none = false
is_text s (some t) = ite (str_discrete t s) true false

module _ {N : Type 0} where
  abbrev pub has_category : Str → FlowEdge N → Bool
  has_category category f = is_text category (some (category_text f.category))

  abbrev pub touches_namespace : Str → FlowEdge N → Bool
  touches_namespace namespace f =
      is_text namespace f.a.pod_namespace || is_text namespace f.b.pod_namespace

  unfoldable pub apply_flow_filters :
      List (FlowEdge N) → Option Str → Option Str → List (FlowEdge N)
  apply_flow_filters flows namespace category =
      let out : List (FlowEdge N) = elim (wanted category) [
        | none ↦ flows
        | some c ↦ filter (has_category c) flows
      ] in
      elim (wanted namespace) [ none ↦ out | some n ↦ filter (touches_namespace n) out ]

  unfoldable pub prior_coverage : List (FlowEdge N) → ℕ → Ratio
  prior_coverage prior expected_hours = record {
    num = length (to_set str_discrete (map (λ f. f.bucket) prior));
    den = expected_hours;
  }

abbrev pub find_by : {A : Type 0} → (A → Str) → List A → Option Str → Option A
find_by text [] o = none
find_by text (a ∷ xs) o = if is_text (text a) o then some a else find_by text xs o

-- The fields of an unknown record.
pub record RawFilters : Type 0 where
  pub range : Option Str
  pub cluster : Option Str
  pub namespace : Option Str
  pub category : Option Str
  pub metric : Option Str

unfoldable pub parse_filters : RawFilters → AnalyticsFilters
parse_filters input = record {
  range = or_else (find_by range_text time_ranges input.range) default_filters.range;
  cluster = or_else (truthy input.cluster) default_filters.cluster;
  namespace = or_else (truthy input.namespace) default_filters.namespace;
  category = or_else (truthy input.category) default_filters.category;
  metric = or_else (find_by metric_text metric_names input.metric) default_filters.metric;
}
