-- ===== src/Dashboard/Anomalies/Reported.antt =====
-- Which spikes are reported, by the totals of the two windows.
use nfm_dashboard.Prelude.{
  ℕ, ◌+◌, ◌*◌, ◌<◌, ◌≤◌, ltb, if◌then◌else◌, Bool, true, List, ◌≡◌, ◌≢◌, ◌↔◌, refl, sym, ◌∙◌, Elem,
  arith,
}
use nfm_dashboard.Prelude.Text.{Str}
use nfm_dashboard.Prelude.Ratio.{Ratio, ratio_lt}
use nfm_dashboard.Collector.Types.{
  FlowEdge, MetricName, data_transferred, retransmissions, timeouts, round_trip_time,
}
use nfm_dashboard.Dashboard.Movers.Sums.{total}
use nfm_dashboard.Dashboard.Anomalies.{
  spike_anomaly, critical, warning, spike_min_delta, severity_for, Anomaly, AnomalyOpts,
  spike_metrics, is_spike, spike, detect_anomalies,
}
use nfm_dashboard.Dashboard.Anomalies.Spikes.{spikes_listed}

-- The increase that a spike needs at least: 50 MB, 10 events.
abbrev pub least_increase : MetricName → ℕ
least_increase data_transferred = 50_000_000
least_increase retransmissions = 10
least_increase timeouts = 10
least_increase round_trip_time = 0

-- The two totals of a spike: not 0 before, over sigma times that now, and with the least increase.
abbrev pub IsOver : Ratio → MetricName → ℕ → ℕ → Type 0
IsOver sigma metric now before =
    (0 < before) × (sigma.num * before < now * sigma.den) × (before + least_increase metric ≤ now)

-- The anomaly of two totals: it is critical over twice the bar.
abbrev pub reported : Ratio → MetricName → Str → ℕ → ℕ → Anomaly
reported sigma metric key now before = record {
  key = key;
  label = key;
  kind = spike_anomaly;
  metric = metric;
  value = record { num = now; den = 1 };
  baseline = record { num = before; den = 1 };
  severity = if ltb (2 * (sigma.num * before)) (now * sigma.den) then critical else warning;
}

is_spike-IsOver :
    (opts : AnomalyOpts) (metric : MetricName) (v b : ℕ)
    → (is_spike opts metric v b ≡ true) ↔ IsOver opts.sigma metric v b
unfolding is_spike spike_min_delta ratio_lt
is_spike-IsOver opts metric v b = ground arith

spike-reported :
    (opts : AnomalyOpts) (metric : MetricName) (key : Str) (v b : ℕ)
    → spike opts metric key v b ≡ reported opts.sigma metric key v b
unfolding severity_for ratio_lt
spike-reported opts metric key v b =
    let doubled : opts.sigma.num * b * 2 * 1 ≡ 2 * (opts.sigma.num * b) = omega arith in
    rw (doubled, spike) refl

metric_cases : (metric : MetricName) → Elem metric spike_metrics ↔ (metric ≢ round_trip_time)
metric_cases metric = ground arith

-- The spikes among the anomalies are exactly those of the entities and the metrics but the round trip
-- time whose total over the prior window is not 0, whose total over the current window is over sigma
-- times that, and whose increase is at least 50 MB of data, 10 retransmissions or 10 timeouts; each
-- with these two totals, and critical where the current one is over twice sigma times the prior one.
pub detect_anomalies_spikes :
    (locale_lt : Str → Str → Bool) (current prior : List (FlowEdge ℕ)) (opts : AnomalyOpts)
    (a : Anomaly)
    → (Elem a (detect_anomalies locale_lt current prior opts) × (a.kind ≡ spike_anomaly)) ↔ (
        (metric : MetricName) × (key : Str) × (metric ≢ round_trip_time)
        × IsOver opts.sigma metric (total metric key current) (total metric key prior)
        × (a ≡ reported opts.sigma metric key (total metric key current) (total metric key prior)))
detect_anomalies_spikes locale_lt current prior opts a =
    let (to, from) = spikes_listed locale_lt current prior opts a in
    (
      λ m.
          let (metric, i, (key, p, q)) = to m in
          let v = total metric key current in
          let b = total metric key prior in
          (
            metric,
            key,
            (metric_cases metric).0 i,
            (is_spike-IsOver opts metric v b).0 p,
            q ∙ spike-reported opts metric key v b,
          ),
      λ (metric, key, n, p, q).
          let v = total metric key current in
          let b = total metric key prior in
          from (
            metric,
            (metric_cases metric).1 n,
            (
              key,
              (is_spike-IsOver opts metric v b).1 p,
              q ∙ sym (spike-reported opts metric key v b),
            ),
          ),
    )
