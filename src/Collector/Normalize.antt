-- ===== src/Collector/Normalize.antt =====
-- Rows to edges: collector/src/normalize.ts. The digest of node:crypto is a parameter.
pub mod Direction
pub mod Dedupe
use nfm_dashboard.Prelude.{ℕ, Option, none, some, List, [], ◌∷◌, ◌++◌, ltb, if◌then◌else◌, or_else}
use nfm_dashboard.Prelude.Text.{Str, codes, str_discrete, str_le, truthy, decimal}
use nfm_dashboard.Prelude.Map.{get, put, values}
use nfm_dashboard.Collector.Types.{
  MetricName, DestCategory, EndpointInfo, FlowEdge, TraversedComponent, metric_text, category_text,
}

pub record KubernetesMetadata : Type 0 where
  pub local_pod_name : Option Str
  pub local_pod_namespace : Option Str
  pub local_service_name : Option Str
  pub remote_pod_name : Option Str
  pub remote_pod_namespace : Option Str
  pub remote_service_name : Option Str

pub record RawRow : Type 0 where
  pub local_ip : Option Str
  pub local_instance_id : Option Str
  pub local_subnet_id : Option Str
  pub local_az : Option Str
  pub local_vpc_id : Option Str
  pub local_region : Option Str
  pub remote_ip : Option Str
  pub remote_instance_id : Option Str
  pub remote_subnet_id : Option Str
  pub remote_az : Option Str
  pub remote_vpc_id : Option Str
  pub remote_region : Option Str
  pub snat_ip : Option Str
  pub dnat_ip : Option Str
  pub target_port : Option ℕ
  pub value : Option ℕ
  pub traversed_constructs : Option (List TraversedComponent)
  pub kubernetes_metadata : Option KubernetesMetadata

pub record RowCtx : Type 0 where
  pub monitor : Str
  pub metric : MetricName
  pub category : DestCategory
  pub bucket : Str
  pub unit : Str

unfoldable pub endpoint_key : EndpointInfo → Str
endpoint_key e = elim (truthy e.pod_name) [
  | some pod ↦ codes "pod:" ++ or_else e.pod_namespace (codes "_") ++ codes "/" ++ pod
  | none ↦ elim (truthy e.instance_id) [
    | some instance_id ↦ codes "i:" ++ instance_id
    | none ↦ codes "ip:" ++ or_else e.ip (codes "unknown")
  ]
]

abbrev no_metadata : KubernetesMetadata
no_metadata = record {
  local_pod_name = none;
  local_pod_namespace = none;
  local_service_name = none;
  remote_pod_name = none;
  remote_pod_namespace = none;
  remote_service_name = none;
}

pub data Which : Type 0 where
  local_side remote_side : Which

unfoldable pub side : RawRow → Which → EndpointInfo
side row local_side =
    let k = or_else row.kubernetes_metadata no_metadata in
    record {
      ip = row.local_ip;
      instance_id = row.local_instance_id;
      subnet_id = row.local_subnet_id;
      az = row.local_az;
      vpc_id = row.local_vpc_id;
      region = row.local_region;
      pod_name = k.local_pod_name;
      pod_namespace = k.local_pod_namespace;
      service_name = k.local_service_name;
    }
side row remote_side =
    let k = or_else row.kubernetes_metadata no_metadata in
    record {
      ip = row.remote_ip;
      instance_id = row.remote_instance_id;
      subnet_id = row.remote_subnet_id;
      az = row.remote_az;
      vpc_id = row.remote_vpc_id;
      region = row.remote_region;
      pod_name = k.remote_pod_name;
      pod_namespace = k.remote_pod_namespace;
      service_name = k.remote_service_name;
    }

-- The two keys in ascending order: `[k1, k2].sort()`.
unfoldable pub sort_pair : Str → Str → Str × Str
sort_pair k l = if str_le k l then (k, l) else (l, k)

abbrev port_text : Option ℕ → Str
port_text none = []
port_text (some port) = decimal port

module _ (sha1_hex : Str → Str) where
  unfoldable pub edge_hash_of : EndpointInfo → EndpointInfo → Option ℕ → Str
  edge_hash_of a b target_port =
      let (k1, k2) = sort_pair (endpoint_key a) (endpoint_key b) in
      sha1_hex (k1 ++ codes "|" ++ k2 ++ codes "|" ++ port_text target_port)

  unfoldable pub normalize_row : RawRow → RowCtx → FlowEdge ℕ
  unfolding side
  normalize_row row ctx =
      let local = side row local_side in
      let remote = side row remote_side in
      let (a, b) : EndpointInfo × EndpointInfo =
        if str_le (endpoint_key local) (endpoint_key remote)
        then (local, remote)
        else (remote, local) in
      record {
        edge_hash = edge_hash_of local remote row.target_port;
        monitor = ctx.monitor;
        metric = ctx.metric;
        category = ctx.category;
        bucket = ctx.bucket;
        value = or_else row.value 0;
        unit = ctx.unit;
        a = a;
        b = b;
        snat_ip = row.snat_ip;
        dnat_ip = row.dnat_ip;
        target_port = row.target_port;
        traversed_constructs = or_else row.traversed_constructs [];
      }

module _ {N : Type 0} where
  unfoldable pub dedupe_key : FlowEdge N → Str
  dedupe_key e =
      e.bucket
      ++ codes "|"
      ++ e.monitor
      ++ codes "|"
      ++ metric_text e.metric
      ++ codes "|"
      ++ category_text e.category
      ++ codes "|"
      ++ e.edge_hash

-- One round of the loop: an edge is kept if its key is new or its value is greater.
unfoldable pub keep_best : List (Str × FlowEdge ℕ) → FlowEdge ℕ → List (Str × FlowEdge ℕ)
keep_best best e =
    let k = dedupe_key e in
    elim (get str_discrete k best) [
      | none ↦ put str_discrete k e best
      | some prev ↦ if ltb prev.value e.value then put str_discrete k e best else best
    ]

unfoldable pub best_of : List (FlowEdge ℕ) → List (Str × FlowEdge ℕ) → List (Str × FlowEdge ℕ)
best_of [] best = best
best_of (e ∷ edges) best = best_of edges (keep_best best e)

unfoldable pub dedupe_edges : List (FlowEdge ℕ) → List (FlowEdge ℕ)
dedupe_edges edges = values (best_of edges [])
