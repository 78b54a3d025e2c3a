-- ===== src/Collector/Storage/Topology.antt =====
-- buildTopology of collector/src/storage.ts: the graph of the edges of a cycle.
pub mod Closed
pub mod Merged
use nfm_dashboard.Prelude.{
  ℕ, ◌+◌, max, Option, none, some, List, [], ◌∷◌, map, filter, flat_map, Bool, ite, or_else, ltb,
  take,
}
use nfm_dashboard.Prelude.Text.{Str, codes, str_discrete, truthy}
use nfm_dashboard.Prelude.Map.{get, put, values, collect}
use nfm_dashboard.Prelude.Set.{contains, to_set}
use nfm_dashboard.Prelude.Sort.{sort}
use nfm_dashboard.Collector.Types.{
  MetricName, MetricName-discrete, data_transferred, round_trip_time, EndpointInfo, FlowEdge,
  TopoNode, TopoEdge, TopologySnapshot, pod, node, external,
}
use nfm_dashboard.Collector.Normalize.{endpoint_key}

abbrev pub max_edges : ℕ
max_edges = 2000

unfoldable pub node_of : EndpointInfo → Option Str → TopoNode
unfolding endpoint_key
node_of ep cluster = elim (truthy ep.pod_name) [
  | some name ↦ record {
    id = endpoint_key ep;
    kind = pod;
    label = name;
    namespace = ep.pod_namespace;
    cluster = cluster;
    az = ep.az;
    vpc_id = ep.vpc_id;
  }
  | none ↦ elim (truthy ep.instance_id) [
    | some instance_id ↦ record {
      id = endpoint_key ep;
      kind = node;
      label = instance_id;
      namespace = none;
      cluster = none;
      az = ep.az;
      vpc_id = ep.vpc_id;
    }
    | none ↦ record {
      id = endpoint_key ep;
      kind = external;
      label = or_else ep.ip (codes "unknown");
      namespace = none;
      cluster = none;
      az = none;
      vpc_id = none;
    }
  ]
]

-- `nodeOf(ep, ep.podName ? cluster : undefined)`
unfoldable pub node_in : Option Str → EndpointInfo → TopoNode
unfolding node_of
node_in cluster ep = node_of ep (elim (truthy ep.pod_name) [ some name ↦ cluster | none ↦ none ])

-- `if (!nodes.has(n.id)) nodes.set(n.id, n)`
unfoldable pub add_node : List (Str × TopoNode) → TopoNode → List (Str × TopoNode)
add_node nodes n = elim (get str_discrete n.id nodes) [
  | none ↦ put str_discrete n.id n nodes
  | some known ↦ nodes
]

unfoldable pub nodes_from :
    List (Str × Str) → List (FlowEdge ℕ) → List (Str × TopoNode) → List (Str × TopoNode)
unfolding node_in add_node
nodes_from clusters [] nodes = nodes
nodes_from clusters (e ∷ edges) nodes =
    let cluster = get str_discrete e.monitor clusters in
    nodes_from clusters edges
      (add_node (add_node nodes (node_in cluster e.a)) (node_in cluster e.b))

abbrev pub prev_metric : MetricName → List (MetricName × ℕ) → ℕ
prev_metric metric metrics = or_else (get MetricName-discrete metric metrics) 0

abbrev pub merged_metric : MetricName → ℕ → ℕ → ℕ
merged_metric metric prev value =
    ite (MetricName-discrete metric round_trip_time) (max prev value) (prev + value)

abbrev pub new_edge : FlowEdge ℕ → TopoEdge
new_edge e = record {
  id = e.edge_hash;
  source = endpoint_key e.a;
  target = endpoint_key e.b;
  metrics = [];
  category = e.category;
  target_port = e.target_port;
}

unfoldable pub merge_edge : Option TopoEdge → FlowEdge ℕ → TopoEdge
merge_edge known e =
    let cur = or_else known (new_edge e) in
    record cur {
      metrics =
          put MetricName-discrete e.metric
            (merged_metric e.metric (prev_metric e.metric cur.metrics) e.value) cur.metrics;
    }

abbrev pub merged_by_hash : List (FlowEdge ℕ) → List (Str × TopoEdge)
merged_by_hash edges = collect str_discrete (λ e. e.edge_hash) merge_edge edges []

abbrev pub bytes_of : TopoEdge → ℕ
bytes_of x = prev_metric data_transferred x.metrics

-- `bytes(y) - bytes(x)` is negative
unfoldable pub heavier : TopoEdge → TopoEdge → Bool
heavier x y = ltb (bytes_of y) (bytes_of x)

abbrev pub ends_of : TopoEdge → List Str
ends_of x = x.source ∷ x.target ∷ []

unfoldable pub build_topology : List (FlowEdge ℕ) → List (Str × Str) → Str → TopologySnapshot
unfolding nodes_from merge_edge heavier
build_topology edges clusters now =
    let top = take max_edges (sort heavier (values (merged_by_hash edges))) in
    let used = to_set str_discrete (flat_map ends_of top) in
    let nodes = values (nodes_from clusters edges []) in
    record {
      generated_at = now;
      nodes = filter (λ n. contains str_discrete n.id used) nodes;
      edges = top;
    }
