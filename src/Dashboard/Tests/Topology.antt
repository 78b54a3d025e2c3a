-- ===== src/Dashboard/Tests/Topology.antt =====
-- Two pods of a namespace that send to each other and to a node.
use nfm_dashboard.Prelude.{ℕ, ◌++◌, none, some, [], ◌∷◌, map, All, Elem, ◌≡◌, ◌⊎◌, refl, arith}
use nfm_dashboard.Prelude.Text.{Str, codes, truthy}
use nfm_dashboard.Prelude.Ratio.{whole}
use nfm_dashboard.Collector.Types.{data_transferred, inter_az, NodeKind, pod, node, TopoNode}
use nfm_dashboard.Dashboard.Snapshot.{Edge, Topology, metric_value}
use nfm_dashboard.Dashboard.Grouping.{apply_grouping, namespace_group, bytes_of_edge}
use nfm_dashboard.Dashboard.Grouping.Ends.{ids_of}
use nfm_dashboard.Dashboard.Grouping.Conserved.{
  sum_of, edges_between, retrans_of, timeouts_of, apply_grouping_conserves,
}
use nfm_dashboard.Dashboard.TopologyGraph.{GraphOpts, default_graph_opts, build_graph_model}
use nfm_dashboard.Dashboard.TopologyGraph.Rendered.{
  IsEnd, kept_ids, links_before, build_graph_model_closed,
}
use nfm_dashboard.Dashboard.Tiers.{
  entity_in, resolve_edge, build_tiers, namespace_tier, service_of, strip_tail, last_dash,
}
use nfm_dashboard.Dashboard.Tiers.Resolved.{IsHeaviest, matching, resolve_edge-IsHeaviest}

abbrev a_node : Str → NodeKind → Str → TopoNode
a_node id kind ns = record {
  id = codes "n/" ++ id;
  kind = kind;
  label = id;
  namespace = some ns;
  cluster = none;
  az = none;
  vpc_id = none;
}

abbrev an_edge : Str → Str → ℕ → Edge
an_edge s t bytes = record {
  id = s ++ t;
  source = codes "n/" ++ s;
  target = codes "n/" ++ t;
  metrics = record {
    data_transferred = some bytes;
    retransmissions = some 1;
    timeouts = none;
    round_trip_time = none;
  };
  category = inter_az;
}

abbrev topo : Topology
topo = record {
  nodes =
      a_node (codes "web") pod (codes "shop")
      ∷ a_node (codes "api") pod (codes "shop")
      ∷ a_node (codes "host") node (codes "infra")
      ∷ [];
  edges =
      an_edge (codes "web") (codes "api") 70
      ∷ an_edge (codes "api") (codes "web") 50
      ∷ an_edge (codes "web") (codes "host") 8
      ∷ [];
}

-- A replica set's and a stateful set's pod.
pod_services :
    (service_of (codes "cart-5d9f7c6b8-x2x7k") ≡ codes "cart")
    × (service_of (codes "db-0") ≡ codes "db")
unfolding service_of strip_tail last_dash truthy
pod_services = (refl, refl)

apply_grouping_conserves_example :
    let r = apply_grouping topo.nodes topo.edges namespace_group [] in
    let ids = ids_of r.nodes in
    let between = edges_between (ids_of topo.nodes) topo.edges in
    (sum_of bytes_of_edge r.edges ≡ sum_of bytes_of_edge between)
    × (sum_of retrans_of r.edges ≡ sum_of retrans_of between)
    × (sum_of timeouts_of r.edges ≡ sum_of timeouts_of between)
    × All (λ e. Elem e.source ids × Elem e.target ids) r.edges
apply_grouping_conserves_example = apply_grouping_conserves topo.nodes topo.edges namespace_group []

abbrev opts : GraphOpts
opts = record default_graph_opts { min_edge_value = whole 20 }

build_graph_model_closed_example :
    let m = build_graph_model opts topo in
    let ids = map (λ n. n.id) m.nodes in
    All (λ l. Elem l.source ids × Elem l.target ids) m.links
    × All
        (λ k.
          Elem k ids
          ⊎ (((l : _) × Elem l (links_before opts topo) × IsEnd k l)
              × All (λ l. ¬ IsEnd k l) m.links))
        (kept_ids opts topo)
build_graph_model_closed_example = build_graph_model_closed opts topo

resolve_edge-IsHeaviest_example :
    IsHeaviest data_transferred
      (matching (entity_in topo namespace_tier) (codes "shop") (codes "n/host") topo.edges)
      (resolve_edge topo namespace_tier (codes "shop") (codes "n/host") data_transferred)
    × All
        (λ l.
          (e : Edge) × (resolve_edge topo namespace_tier l.source l.target data_transferred
            ≡ some e))
        (build_tiers topo namespace_tier).1
unfolding metric_value
resolve_edge-IsHeaviest_example =
    resolve_edge-IsHeaviest topo namespace_tier data_transferred
      (omega arith, (omega arith, (omega arith, tt))) (codes "shop") (codes "n/host")
