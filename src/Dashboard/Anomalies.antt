-- ===== src/Dashboard/Anomalies.antt =====
-- Deviations from the baseline: app/src/lib/analytics/anomalies.ts. `localeCompare` is a parameter;
-- the text of the detail is left out.
pub mod Spikes
pub mod Reported
use nfm_dashboard.Prelude.{
  ℕ, ◌+◌, ◌*◌, ◌^◌, Option, none, some, List, [], ◌∷◌, ◌++◌, Bool, true, false, not, ◌&&◌, ◌||◌,
  ltb, leb, ◌==◌, if◌then◌else◌, or_else,
}
use nfm_dashboard.Prelude.Text.{Str, codes, str_discrete}
use nfm_dashboard.Prelude.Map.{get}
use nfm_dashboard.Prelude.Sort.{sort}
use nfm_dashboard.Prelude.Ratio.{Ratio, whole, ratio_lt}
use nfm_dashboard.Collector.Types.{
  FlowEdge, MetricName, data_transferred, retransmissions, timeouts, round_trip_time,
}
use nfm_dashboard.Dashboard.Aggregate.{service_kind}
use nfm_dashboard.Dashboard.Movers.{sums_from}
use nfm_dashboard.Dashboard.Reliability.{
  ReliabilityRow, rate_per, ratio_max, ratio_div, tiny, descending,
}

abbrev pub default_sigma : Ratio
default_sigma = whole 3

-- The least increase that counts as a spike.
unfoldable pub spike_min_delta : MetricName → Option ℕ
spike_min_delta m = elim m [
  | data_transferred ↦ some (50 * 10 ^ 6)
  | retransmissions ↦ some 10
  | timeouts ↦ some 10
  | round_trip_time ↦ none
]

pub data AnomalyKind : Type 0 where
  retrans_anomaly timeout_anomaly spike_anomaly : AnomalyKind

pub data AnomalySeverity : Type 0 where
  critical warning : AnomalySeverity

pub record Anomaly : Type 0 where
  pub key : Str
  pub label : Str
  pub kind : AnomalyKind
  pub metric : MetricName
  pub value : Ratio
  pub baseline : Ratio
  pub severity : AnomalySeverity

pub record AnomalyOpts : Type 0 where
  pub retrans_threshold : Ratio
  pub timeout_threshold : Ratio
  pub sigma : Ratio

abbrev pub spike_metrics : List MetricName
spike_metrics = data_transferred ∷ retransmissions ∷ timeouts ∷ []

unfoldable pub severity_rank : AnomalySeverity → ℕ
severity_rank s = elim s [ critical ↦ 0 | warning ↦ 1 ]

abbrev pub magnitude : Anomaly → Ratio
magnitude a = ratio_div a.value (ratio_max a.baseline tiny)

-- `r * n`
abbrev pub times : Ratio → ℕ → Ratio
times r n = record r { num = r.num * n }

abbrev pub entity_sums : List (FlowEdge ℕ) → MetricName → List (Str × ℕ)
entity_sums flows metric = sums_from metric flows []

unfoldable pub severity_for : Ratio → Ratio → AnomalySeverity
severity_for value bar = if ratio_lt (times bar 2) value then critical else warning

abbrev pub threshold_anomaly : AnomalyKind → MetricName → Str → Ratio → Ratio → Anomaly
threshold_anomaly kind metric key rate threshold = record {
  key = key;
  label = key;
  kind = kind;
  metric = metric;
  value = rate;
  baseline = threshold;
  severity = severity_for rate threshold;
}

-- The anomalies of one row: of the retransmissions first.
unfoldable pub row_anomalies : AnomalyOpts → ReliabilityRow → List Anomaly
unfolding severity_for
row_anomalies opts row =
    (if ratio_lt opts.retrans_threshold row.retrans_rate
      then threshold_anomaly retrans_anomaly retransmissions row.key row.retrans_rate
          opts.retrans_threshold
        ∷ []
      else [])
    ++ (if ratio_lt opts.timeout_threshold row.timeout_rate
        then threshold_anomaly timeout_anomaly timeouts row.key row.timeout_rate
            opts.timeout_threshold
          ∷ []
        else [])

unfoldable pub rate_anomalies : AnomalyOpts → List ReliabilityRow → List Anomaly
unfolding row_anomalies
rate_anomalies opts [] = []
rate_anomalies opts (row ∷ rows) = row_anomalies opts row ++ rate_anomalies opts rows

-- A baseline that is not 0, a value over sigma times it, and an increase of at least the least one.
unfoldable pub is_spike : AnomalyOpts → MetricName → ℕ → ℕ → Bool
unfolding spike_min_delta
is_spike opts metric value baseline =
    ltb 0 baseline
    && ratio_lt (times opts.sigma baseline) (whole value)
    && leb (baseline + or_else (spike_min_delta metric) 0) value

abbrev pub spike : AnomalyOpts → MetricName → Str → ℕ → ℕ → Anomaly
spike opts metric key value baseline = record {
  key = key;
  label = key;
  kind = spike_anomaly;
  metric = metric;
  value = whole value;
  baseline = whole baseline;
  severity = severity_for (whole value) (times opts.sigma baseline);
}

unfoldable pub spikes_of : AnomalyOpts → MetricName → List (Str × ℕ) → List (Str × ℕ) → List Anomaly
unfolding is_spike severity_for
spikes_of opts metric pri [] = []
spikes_of opts metric pri ((key, value) ∷ cur) =
    let baseline = or_else (get str_discrete key pri) 0 in
    let rest = spikes_of opts metric pri cur in
    if is_spike opts metric value baseline
    then spike opts metric key value baseline ∷ rest
    else rest

unfoldable pub all_spikes :
    AnomalyOpts → List (FlowEdge ℕ) → List (FlowEdge ℕ) → List MetricName → List Anomaly
unfolding spikes_of
all_spikes opts current prior [] = []
all_spikes opts current prior (metric ∷ metrics) =
    spikes_of opts metric (entity_sums prior metric) (entity_sums current metric)
    ++ all_spikes opts current prior metrics

unfoldable pub kind_text : AnomalyKind → Str
kind_text k = elim k [
  | retrans_anomaly ↦ codes "retrans"
  | timeout_anomaly ↦ codes "timeout"
  | spike_anomaly ↦ codes "spike"
]

module _ (locale_lt : Str → Str → Bool) where
  -- `localeCompare` is 0 where neither text comes before the other.
  abbrev pub anomaly_order : Anomaly → Anomaly → Bool
  anomaly_order x y =
      let p = severity_rank x.severity in
      let q = severity_rank y.severity in
      ltb p q
      || ((p == q)
          && descending (magnitude x) (magnitude y) (
              locale_lt x.key y.key
              || (not (locale_lt y.key x.key) && locale_lt (kind_text x.kind) (kind_text y.kind))))

  unfoldable pub detect_anomalies :
      List (FlowEdge ℕ) → List (FlowEdge ℕ) → AnomalyOpts → List Anomaly
  unfolding rate_anomalies all_spikes severity_rank kind_text
  detect_anomalies current prior opts = sort anomaly_order (
      rate_anomalies opts (rate_per locale_lt current service_kind)
      ++ all_spikes opts current prior spike_metrics)
