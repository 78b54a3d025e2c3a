-- ===== src/Dashboard/Snapshot.antt =====
-- The topology snapshot as the web application reads it: app/src/lib/types.ts. A metric of an edge
-- that was not seen is missing; a round trip time may be a mean.
use nfm_dashboard.Prelude.{ℕ, ◌+◌, ◌*◌, Option, none, some, List, Bool, ite}
use nfm_dashboard.Prelude.Text.{Str, str_discrete}
use nfm_dashboard.Prelude.Ratio.{Ratio, whole}
use nfm_dashboard.Collector.Types.{
  MetricName, data_transferred, retransmissions, timeouts, round_trip_time, DestCategory, TopoNode,
}

pub record Metrics : Type 0 where
  pub data_transferred : Option ℕ
  pub retransmissions : Option ℕ
  pub timeouts : Option ℕ
  pub round_trip_time : Option Ratio

pub record Edge : Type 0 where
  pub id : Str
  pub source : Str
  pub target : Str
  pub metrics : Metrics
  pub category : DestCategory

pub record Topology : Type 0 where
  pub nodes : List TopoNode
  pub edges : List Edge

abbrev counted : Option ℕ → Ratio
counted none = whole 0
counted (some n) = whole n

abbrev measured : Option Ratio → Ratio
measured none = whole 0
measured (some r) = r

-- `e.metrics[metric] ?? 0`
unfoldable pub metric_value : MetricName → Metrics → Ratio
metric_value metric m = elim metric [
  | data_transferred ↦ counted m.data_transferred
  | retransmissions ↦ counted m.retransmissions
  | timeouts ↦ counted m.timeouts
  | round_trip_time ↦ measured m.round_trip_time
]

-- `a + b`
unfoldable pub ratio_add : Ratio → Ratio → Ratio
ratio_add a b = record { num = a.num * b.den + b.num * a.den; den = a.den * b.den }

-- `a === b`, on strings
abbrev pub same_text : Str → Str → Bool
same_text a b = ite (str_discrete a b) Bool.true Bool.false
