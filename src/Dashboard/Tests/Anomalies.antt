-- ===== src/Dashboard/Tests/Anomalies.antt =====
-- A jump from 60 to 400 MB, and a row for the alerts.
use nfm_dashboard.Prelude.{ℕ, ◌*◌, ◌^◌, List, [], ◌∷◌, map, Elem, ◌≡◌, ◌≢◌, ◌↔◌}
use nfm_dashboard.Prelude.Text.{Str, codes}
use nfm_dashboard.Prelude.Ratio.{whole}
use nfm_dashboard.Collector.Types.{
  FlowEdge, MetricName, data_transferred, retransmissions, round_trip_time,
}
use nfm_dashboard.Collector.Reliability.{BreachRow, detect_reliability_breaches}
use nfm_dashboard.Dashboard.Aggregate.{service_kind}
use nfm_dashboard.Dashboard.Movers.Sums.{total}
use nfm_dashboard.Dashboard.Reliability.{rate_per, threshold_breaches, no_opts}
use nfm_dashboard.Dashboard.Reliability.Lockstep.{alert_row, detect-threshold_breaches}
use nfm_dashboard.Dashboard.Anomalies.{Anomaly, AnomalyOpts, spike_anomaly, spike, detect_anomalies}
use nfm_dashboard.Dashboard.Anomalies.Reported.{IsOver, reported, detect_anomalies_spikes}
use nfm_dashboard.Dashboard.Tests.Movers.{no_order, flow}

abbrev prior : List (FlowEdge ℕ)
prior = flow (60 * 10 ^ 6) ∷ []

abbrev current : List (FlowEdge ℕ)
current = flow (400 * 10 ^ 6) ∷ record (flow 9000) { metric = retransmissions } ∷ []

abbrev opts : AnomalyOpts
opts = record { retrans_threshold = whole 10; timeout_threshold = whole 5; sigma = whole 3 }

abbrev jump : Anomaly
jump = spike opts data_transferred (codes "unknown/web") (400 * 10 ^ 6) (60 * 10 ^ 6)

detect_anomalies_spikes_example :
    (Elem jump (detect_anomalies no_order current prior opts) × (jump.kind ≡ spike_anomaly)) ↔ (
      (metric : MetricName) × (key : Str) × (metric ≢ round_trip_time)
      × IsOver (whole 3) metric (total metric key current) (total metric key prior)
      × (jump ≡ reported (whole 3) metric key (total metric key current) (total metric key prior)))
detect_anomalies_spikes_example = detect_anomalies_spikes no_order current prior opts jump

abbrev breaching : BreachRow
breaching = record {
  key = codes "unknown/web";
  retrans_rate = record { num = 9000 * 10 ^ 9; den = 400 * 10 ^ 6 };
  timeout_rate = record { num = 0; den = 400 * 10 ^ 6 };
}

detect-threshold_breaches_example :
    Elem breaching (detect_reliability_breaches no_order current)
    ↔ Elem breaching (
        map alert_row
          (threshold_breaches no_order (rate_per no_order current service_kind) no_opts))
detect-threshold_breaches_example = detect-threshold_breaches no_order current breaching
