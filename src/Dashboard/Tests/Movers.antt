-- ===== src/Dashboard/Tests/Movers.antt =====
-- An entity that went silent.
use nfm_dashboard.Prelude.{ℕ, none, some, [], Bool, false}
use nfm_dashboard.Prelude.Text.{Str, codes}
use nfm_dashboard.Collector.Types.{EndpointInfo, FlowEdge, intra_az, data_transferred}

abbrev pub no_order : Str → Str → Bool
no_order a b = false

abbrev pub endpoint : Str → EndpointInfo
endpoint name = record {
  ip = none;
  instance_id = none;
  subnet_id = none;
  az = none;
  vpc_id = none;
  region = none;
  pod_name = some name;
  pod_namespace = none;
  service_name = some name;
}

abbrev pub flow : ℕ → FlowEdge ℕ
flow value = record {
  edge_hash = codes "h";
  monitor = codes "m";
  metric = data_transferred;
  category = intra_az;
  bucket = codes "t";
  value = value;
  unit = codes "Bytes";
  a = endpoint (codes "web");
  b = endpoint (codes "db");
  snat_ip = none;
  dnat_ip = none;
  target_port = none;
  traversed_constructs = [];
}
