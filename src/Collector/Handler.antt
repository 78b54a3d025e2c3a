-- ===== src/Collector/Handler.antt =====
-- One cycle of the collector: handler of collector/src/handler.ts, with writeCycle of
-- collector/src/storage.ts. The calls of the services are given by their outcomes. A step whose
-- failure the handler catches is an Option; a write that fails ends the cycle. `full_iso` is
-- `toISOString`.
pub mod Cycles
use nfm_dashboard.Prelude.{
  ℕ, suc, ◌+◌, ◌*◌, ◌/◌, ◌%◌, Option, none, some, List, [], ◌∷◌, ◌++◌, map, Bool, true, false, ◌==◌,
  ◌&&◌, if◌then◌else◌, or_else,
}
use nfm_dashboard.Prelude.Text.{Str, str_discrete}
use nfm_dashboard.Prelude.Set.{add_all}
use nfm_dashboard.Collector.Types.{
  DestCategory, FlowEdge, TopologySnapshot, data_transferred, retransmissions, timeouts,
  round_trip_time,
}
use nfm_dashboard.Collector.Categories.{categories_for_cycle}
use nfm_dashboard.Collector.Dates.{Dates}
use nfm_dashboard.Collector.NfmQuery.{CycleStats, Job, QueryService, MatrixSpec, run_query_matrix}
use nfm_dashboard.Collector.Storage.Topology.{build_topology}
use nfm_dashboard.Collector.Alerts.{Services, publish_reliability_alerts}
use nfm_dashboard.Collector.WiQuery.{WiResult}
use nfm_dashboard.Collector.RollupStore.{Pages, HourServices, run_rollup_step, hours_done}

-- The environment of the function.
pub record Settings : Type 0 where
  pub monitor_pairs : List (Str × Str)
  pub clusters : List (Str × Str)
  pub every_n : ℕ
  pub dns_every : ℕ

pub record DnsResult : Type 0 where
  pub enabled : Bool
  pub body : Str

-- A write of a cycle: the rows of the flows, and the items of the second table.
pub data Write : Type 0 where
  flow_rows : List (FlowEdge ℕ) → Write
  history_item : Str → CycleStats → Write
  latest_item : Str → CycleStats → ℕ → Write
  topology_item : TopologySnapshot → Write
  coverage_item : Str → Write
  wi_item : List WiResult → Write
  dns_item : DnsResult → Write

-- The items of the second table that a cycle reads or replaces.
pub record MetaTable : Type 0 where
  pub cycle : Option ℕ
  pub topology : Option TopologySnapshot
  pub coverage : Option Str
  pub wi : Option (List WiResult)
  pub dns : Option DnsResult
  pub alert_keys : Option (List Str)
  pub hours : List Str

-- What the services answer in one cycle.
pub record CycleServices : Type 0 where
  pub now : ℕ
  pub coverage : Option Str
  pub status_read : Bool
  pub queries : Job → QueryService
  pub order : MatrixSpec → List Job
  pub write_succeeds : Write → Bool
  pub alerts : Services
  pub wi : Option (List WiResult)
  pub dns : Option DnsResult
  pub markers : Pages Str
  pub hours : Str → HourServices

unfoldable pub apply_write : MetaTable → Write → MetaTable
apply_write table (flow_rows edges) = table
apply_write table (history_item ts stats) = table
apply_write table (latest_item ts stats cycle) = record table { cycle = some cycle }
apply_write table (topology_item t) = record table { topology = some t }
apply_write table (coverage_item c) = record table { coverage = some c }
apply_write table (wi_item rows) = record table { wi = some rows }
apply_write table (dns_item d) = record table { dns = some d }

-- The writes in order, up to the first that fails; whether none failed.
unfoldable pub perform : (Write → Bool) → List Write → MetaTable → MetaTable × Bool
unfolding apply_write
perform succeeds [] table = (table, true)
perform succeeds (w ∷ writes) table =
    let rest = perform succeeds writes (apply_write table w) in
    if succeeds w then rest else (table, false)

abbrev pub optional : {A : Type 0} → (A → Write) → Option A → List Write
optional write none = []
optional write (some a) = write a ∷ []

-- `writeCycle`
unfoldable pub write_cycle :
    List (FlowEdge ℕ) → TopologySnapshot → CycleStats → Str → Option Str → ℕ → List Write
write_cycle edges topology stats cycle_ts coverage cycle =
    (flow_rows edges
      ∷ history_item cycle_ts stats
      ∷ latest_item cycle_ts stats cycle
      ∷ topology_item topology
      ∷ [])
    ++ optional coverage_item coverage

-- The number of the cycle: a counter that cannot be read counts as 0.
unfoldable pub cycle_number : CycleServices → MetaTable → ℕ
cycle_number services table = suc (if services.status_read then or_else table.cycle 0 else 0)

-- The DNS pass of every `dns_every` cycles; an aggregate that is not enabled is not written.
unfoldable pub dns_writes : Settings → CycleServices → ℕ → List Write
dns_writes settings services cycle =
    if cycle % settings.dns_every == 0
    then (optional dns_item
        (elim services.dns [ none ↦ none | some d ↦ if d.enabled then some d else none ]))
    else []

module _ (sha1_hex : Str → Str) (locale_lt : Str → Str → Bool) (dates : Dates) (full_iso : ℕ → Str)
    (settings : Settings) where
  abbrev pub spec_of : ℕ → ℕ → MatrixSpec
  spec_of now cycle = record {
    monitors = map (λ p. p.0) settings.monitor_pairs;
    metrics = data_transferred ∷ retransmissions ∷ timeouts ∷ round_trip_time ∷ [];
    categories = categories_for_cycle cycle settings.every_n;
    bucket = dates.iso (now / 300_000 * 300_000);
    status_poll_max = some 30;
  }

  -- The rollup of the closed hours, whose failure is caught: the markers that were put stay.
  unfoldable pub roll_up : CycleServices → MetaTable → MetaTable
  unfolding run_rollup_step add_all
  roll_up services table =
      let logs =
        run_rollup_step dates services.markers services.hours
          (map (λ p. p.0) settings.monitor_pairs) services.now in
      record table { hours = add_all str_discrete table.hours (hours_done dates logs) }

  -- After the writes of the cycle: the alerts, whose failure is caught, then the workload insights,
  -- the DNS pass and the rollup.
  unfoldable pub after_write : CycleServices → List (FlowEdge ℕ) → ℕ → MetaTable → MetaTable × Bool
  unfolding dns_writes perform roll_up
  after_write services edges cycle table =
      let outcome = publish_reliability_alerts locale_lt services.alerts edges table.alert_keys in
      let (written, ok) =
        perform services.write_succeeds
          (optional wi_item services.wi ++ dns_writes settings services cycle)
          (record table { alert_keys = outcome.stored }) in
      if ok then (roll_up services written, true) else (written, false)

  -- The table after the cycle, and whether the handler returns.
  unfoldable pub handler : CycleServices → MetaTable → MetaTable × Bool
  unfolding cycle_number write_cycle perform after_write
  handler services table =
      let cycle = cycle_number services table in
      let spec = spec_of services.now cycle in
      let (edges, stats) = run_query_matrix sha1_hex spec services.queries (services.order spec) in
      let cycle_ts = full_iso services.now in
      let topology = build_topology edges settings.clusters cycle_ts in
      let (written, ok) =
        perform services.write_succeeds
          (write_cycle edges topology stats cycle_ts services.coverage cycle) table in
      if ok then after_write services edges cycle written else (written, false)

  -- The cycles of the schedule, one after the other.
  unfoldable pub run_cycles : List CycleServices → MetaTable → MetaTable
  unfolding handler
  run_cycles [] table = table
  run_cycles (services ∷ rest) table = run_cycles rest (handler services table).0
