-- ===== src/Collector/Tests/Data.antt =====
-- The endpoints, rows and edges that the tests share.
use nfm_dashboard.Prelude.{ℕ, none, some, [], ◌∷◌, refl}
use nfm_dashboard.Prelude.Text.{Str, codes}
use nfm_dashboard.Collector.Types.{MetricName, EndpointInfo, FlowEdge, intra_az, data_transferred}
use nfm_dashboard.Collector.Dates.{Dates}
use nfm_dashboard.Collector.Normalize.{RawRow, RowCtx}

-- A digest for the tests: the text itself.
abbrev pub digest : Str → Str
digest s = s

abbrev pub nowhere : EndpointInfo
nowhere = record {
  ip = none;
  instance_id = none;
  subnet_id = none;
  az = none;
  vpc_id = none;
  region = none;
  pod_name = none;
  pod_namespace = none;
  service_name = none;
}

abbrev pub web : EndpointInfo
web = record nowhere { ip = some (codes "10.0.0.1"); pod_name = some (codes "web") }

abbrev pub db : EndpointInfo
db = record nowhere { ip = some (codes "10.0.0.2"); instance_id = some (codes "i-7") }

abbrev pub edge_of : MetricName → ℕ → FlowEdge ℕ
edge_of metric value = record {
  edge_hash = codes "h";
  monitor = codes "m";
  metric = metric;
  category = intra_az;
  bucket = codes "t";
  value = value;
  unit = codes "Count";
  a = db;
  b = web;
  snat_ip = none;
  dnat_ip = none;
  target_port = some 443;
  traversed_constructs = [];
}

abbrev pub sample_row : RawRow
sample_row = record {
  local_ip = some (codes "10.0.0.1");
  local_instance_id = none;
  local_subnet_id = none;
  local_az = none;
  local_vpc_id = none;
  local_region = none;
  remote_ip = some (codes "10.0.0.2");
  remote_instance_id = some (codes "i-7");
  remote_subnet_id = none;
  remote_az = none;
  remote_vpc_id = none;
  remote_region = none;
  snat_ip = none;
  dnat_ip = none;
  target_port = some 443;
  value = some 12;
  traversed_constructs = none;
  kubernetes_metadata = none;
}

abbrev pub sample_ctx : RowCtx
sample_ctx = record {
  monitor = codes "m";
  metric = data_transferred;
  category = intra_az;
  bucket = codes "t";
  unit = codes "Count";
}

abbrev first_unit : Str → ℕ
first_unit [] = 0
first_unit (t ∷ s) = t

-- Times written as one code unit.
abbrev pub unit_dates : Dates
unit_dates = record { iso = λ t. t ∷ []; parse = first_unit; parse-iso = λ t h. refl }
