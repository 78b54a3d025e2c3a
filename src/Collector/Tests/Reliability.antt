-- ===== src/Collector/Tests/Reliability.antt =====
-- Breach detection and the push of its changes.
use nfm_dashboard.Prelude.{
  ℕ, none, some, List, [], ◌∷◌, map, Bool, true, false, ◌≡◌, ◌≢◌, ◌⊎◌, ◌↔◌, refl, Elem, Distinct,
  All,
}
use nfm_dashboard.Prelude.Text.{Str, codes, str_discrete, truthy}
use nfm_dashboard.Prelude.Map.{get, put}
use nfm_dashboard.Prelude.Set.{contains, to_set}
use nfm_dashboard.Prelude.Sort.{sort}
use nfm_dashboard.Prelude.Ratio.{ratio_lt}
use nfm_dashboard.Collector.Types.{FlowEdge, data_transferred, retransmissions}
use nfm_dashboard.Collector.Reliability.{
  entity_key, rate_per_gb, add_value, count_for, entities, count_edge, count_all, is_breach,
  breach_rows, row_before, detect_reliability_breaches, diff_breach_state,
}
use nfm_dashboard.Collector.Reliability.Detect.{
  IsBreaching, HasRates, detect_reliability_breaches_exact,
}
use nfm_dashboard.Collector.Alerts.{Services, publishes, publish_reliability_alerts}
use nfm_dashboard.Collector.Alerts.Alternation.{
  in_alarm, run, states, follow, run_alternates, publish_reliability_alerts_outcome,
}
use nfm_dashboard.Collector.Tests.Data.{edge_of}

-- A comparison for the tests.
abbrev never : Str → Str → Bool
never s t = false

abbrev noisy : List (FlowEdge ℕ)
noisy = edge_of data_transferred 1_000_000_000 ∷ edge_of retransmissions 11 ∷ []

abbrev quiet : List (FlowEdge ℕ)
quiet = edge_of data_transferred 1_000_000_000 ∷ edge_of retransmissions 10 ∷ []

detection : Unit {0}
unfolding detect_reliability_breaches breach_rows is_breach count_all count_edge count_for entities
    add_value rate_per_gb row_before entity_key truthy sort get put contains to_set str_discrete
    ratio_lt
detection = tt

noisy_keys :
    map (λ r. r.key) (detect_reliability_breaches never noisy)
    ≡ codes "unknown/10.0.0.2" ∷ codes "unknown/web" ∷ []
unfolding detection
noisy_keys = refl

quiet_keys : detect_reliability_breaches never quiet ≡ []
unfolding detection
quiet_keys = refl

detect_reliability_breaches_exact_example :
    (Elem (codes "unknown/web") (map (λ r. r.key) (detect_reliability_breaches never noisy))
      ↔ IsBreaching (codes "unknown/web") noisy)
    × Distinct (map (λ r. r.key) (detect_reliability_breaches never noisy))
    × All (λ r. HasRates r noisy) (detect_reliability_breaches never noisy)
detect_reliability_breaches_exact_example =
    detect_reliability_breaches_exact never noisy (codes "unknown/web")

abbrev all_well : Services
all_well = record {
  topic_arn = some (codes "arn");
  read_succeeds = true;
  send_succeeds = λ n. true;
  write_succeeds = true;
}

abbrev no_write : Services
no_write = record all_well { write_succeeds = false }

abbrev three_cycles : List (Services × List (FlowEdge ℕ))
three_cycles = (all_well, noisy) ∷ (no_write, quiet) ∷ (all_well, quiet) ∷ []

run_alternates_example :
    follow
      (in_alarm (codes "unknown/web") none)
      (states (codes "unknown/web") (run never none three_cycles).0)
    ≡ some (in_alarm (codes "unknown/web") (run never none three_cycles).1)
run_alternates_example = run_alternates never three_cycles none (codes "unknown/web") tt

topic_is_set : truthy all_well.topic_arn ≢ none
unfolding truthy
topic_is_set e = cc

publish_reliability_alerts_outcome_example :
    let o = publish_reliability_alerts never all_well noisy none in
    ((o.failed ≡ true) × (o.stored ≡ none))
    ⊎ ((o.failed ≡ false)
        × ((in_alarm (codes "unknown/web") o.stored ≡ true)
            ↔ IsBreaching (codes "unknown/web") noisy)
        × (o.sent ≡ publishes (diff_breach_state (detect_reliability_breaches never noisy) [])))
publish_reliability_alerts_outcome_example =
    publish_reliability_alerts_outcome never all_well noisy none (codes "unknown/web") topic_is_set
