-- ===== src/Collector/Tests/Handler.antt =====
-- Two cycles of a rotation of period 2, and one whose DNS aggregate is empty.
use nfm_dashboard.Prelude.{ℕ, none, some, [], ◌∷◌, ◌++◌, Bool, true, false, ◌≡◌, refl, arith}
use nfm_dashboard.Prelude.Text.{Str, codes}
use nfm_dashboard.Prelude.Indexed.{at}
use nfm_dashboard.Collector.Categories.{core, extended}
use nfm_dashboard.Collector.NfmQuery.{ok, succeeded_status, last_page, Job, QueryService, jobs_of}
use nfm_dashboard.Collector.Alerts.{Services}
use nfm_dashboard.Collector.Handler.{Settings, CycleServices, MetaTable, spec_of, run_cycles}
use nfm_dashboard.Collector.Handler.Cycles.{
  KeepsGood, IsHealthy, number_at, run_cycles-KeepsGood, run_cycles_rotates,
}
use nfm_dashboard.Collector.RollupStore.{last}
use nfm_dashboard.Collector.Tests.Storage.{hour_services}
use nfm_dashboard.Collector.Tests.Data.{digest, sample_row, unit_dates}

abbrev no_order : Str → Str → Bool
no_order a b = false

abbrev settings : Settings
settings = record {
  monitor_pairs = (codes "m", codes "east") ∷ [];
  clusters = (codes "m", codes "east") ∷ [];
  every_n = 2;
  dns_every = 1;
}

abbrev service : Job → QueryService
service job = record {
  start = λ n. ok (codes "q");
  status = λ i n. ok succeeded_status;
  results = last_page (λ n. ok (record { top_contributors = some (sample_row ∷ []); unit = none }));
}

abbrev unset : Services
unset = record {
  topic_arn = none;
  read_succeeds = true;
  send_succeeds = λ n. true;
  write_succeeds = true;
}

abbrev services : CycleServices
services = record {
  now = 600_000;
  coverage = none;
  status_read = true;
  queries = service;
  order = jobs_of;
  write_succeeds = λ w. true;
  alerts = unset;
  wi = none;
  dns = some (record { enabled = false; body = codes "empty" });
  markers = last [];
  hours = hour_services;
}

abbrev table : MetaTable
table = record {
  cycle = some 4;
  topology = none;
  coverage = none;
  wi = none;
  dns = some (record { enabled = true; body = codes "good" });
  alert_keys = none;
  hours = [];
}

abbrev iso : ℕ → Str
iso t = t ∷ []

services-IsHealthy : IsHealthy services
services-IsHealthy = record { reads = refl; writes = λ w. refl }

run_cycles-KeepsGood_example :
    KeepsGood table
      (run_cycles digest no_order unit_dates iso settings (services ∷ services ∷ []) table)
run_cycles-KeepsGood_example =
    run_cycles-KeepsGood digest no_order unit_dates iso settings (services ∷ services ∷ []) table

run_cycles_rotates_example :
    let cycles = services ∷ services ∷ [] in
    (k : ℕ) × (s : CycleServices) × (at k cycles ≡ some s)
    × ((spec_of digest no_order unit_dates iso settings s.now
          (number_at digest no_order unit_dates iso settings cycles table k s)).categories
        ≡ core ++ extended)
run_cycles_rotates_example =
    run_cycles_rotates digest no_order unit_dates iso settings (services ∷ services ∷ []) table
      (omega arith) refl (services-IsHealthy, (services-IsHealthy, tt))
