-- ===== src/Collector/Alerts.antt =====
-- publishReliabilityAlerts of collector/src/handler.ts: the push of state changes to the topic. The
-- service calls are given by their outcomes; a call that fails ends the function, and the handler
-- goes on with its cycle.
pub mod Alternation
use nfm_dashboard.Prelude.{
  ℕ, Option, none, some, List, [], ◌∷◌, ◌++◌, map, Bool, true, false, not, filter, any, ◌||◌,
  if◌then◌else◌, or_else,
}
use nfm_dashboard.Prelude.Text.{Str, truthy}
use nfm_dashboard.Collector.Types.{FlowEdge}
use nfm_dashboard.Collector.Reliability.{
  BreachRow, BreachStateDiff, detect_reliability_breaches, diff_breach_state,
}

-- A message: ALARM with the row that breaches, or OK with the key that recovered.
pub data Notice : Type 0 where
  alarm : BreachRow → Notice
  recovered : Str → Notice

-- What the services answer in one cycle.
pub record Services : Type 0 where
  pub topic_arn : Option Str
  pub read_succeeds : Bool
  pub send_succeeds : Notice → Bool
  pub write_succeeds : Bool

-- The messages that the topic took, the stored keys afterwards (none: no item), and whether a call
-- failed.
pub record Outcome : Type 0 where
  pub sent : List Notice
  pub stored : Option (List Str)
  pub failed : Bool

unfoldable pub publishes : BreachStateDiff → List Notice
publishes d = map alarm d.started ++ map recovered d.resolved

module _ (locale_lt : Str → Str → Bool) where
  unfoldable pub publish_reliability_alerts :
      Services → List (FlowEdge ℕ) → Option (List Str) → Outcome
  publish_reliability_alerts services edges stored = elim (truthy services.topic_arn) [
    | none ↦ record { sent = []; stored = stored; failed = false }
    | some topic ↦
        if not services.read_succeeds
        then record { sent = []; stored = stored; failed = true }
        else (let current = detect_reliability_breaches locale_lt edges in
            let notices = publishes (diff_breach_state current (or_else stored [])) in
            let sent = filter services.send_succeeds notices in
            if any (λ n. not (services.send_succeeds n)) notices || not services.write_succeeds
            then record { sent = sent; stored = stored; failed = true }
            else record { sent = sent; stored = some (map (λ r. r.key) current); failed = false })
  ]
