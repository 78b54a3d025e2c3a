-- ===== src/Dashboard/TopologyGraph.antt =====
-- The model of the network graph: buildGraphModel of app/src/lib/topology-graph.ts. The radius of a
-- node is given by the share that it is the root of; there is none where no node has traffic.
pub mod Rendered
use nfm_dashboard.Prelude.{
  ℕ, zero, ◌+◌, ◌-◌, ◌*◌, ◌^◌, max, Option, none, some, List, [], ◌∷◌, map, filter, length, Bool,
  true, false, not, ◌&&◌, ltb, ◌==◌, if◌then◌else◌, or_else,
}
use nfm_dashboard.Prelude.Text.{Str, str_discrete, truthy}
use nfm_dashboard.Prelude.Map.{get, put}
use nfm_dashboard.Prelude.Set.{contains, add}
use nfm_dashboard.Prelude.Ratio.{Ratio, whole, ratio_lt}
use nfm_dashboard.Collector.Types.{MetricName, data_transferred, DestCategory, NodeKind, TopoNode}
use nfm_dashboard.Dashboard.Aggregate.{rate_per_gb}
use nfm_dashboard.Dashboard.Snapshot.{Metrics, Edge, Topology, metric_value, ratio_add, same_text}
use nfm_dashboard.Dashboard.Grouping.{GroupLevel, GroupMeta, GroupingResult, apply_grouping}

pub data NodeStatus : Type 0 where
  ok_node warn_node danger_node idle_node : NodeStatus

pub data LinkHealth : Type 0 where
  ok_link warn_link danger_link : LinkHealth

pub record GraphNode : Type 0 where
  pub id : Str
  pub label : Str
  pub kind : NodeKind
  pub radius : Option (Ratio × Ratio)
  pub traffic : Ratio
  pub self_bytes : Ratio
  pub status : NodeStatus
  pub cross_az : Bool
  pub group : Option GroupMeta

pub record GraphLink : Type 0 where
  pub id : Str
  pub source : Str
  pub target : Str
  pub value : Ratio
  pub rate : Ratio
  pub dashed : Bool
  pub health : LinkHealth
  pub category : DestCategory

pub record GraphModel : Type 0 where
  pub nodes : List GraphNode
  pub links : List GraphLink
  pub total : ℕ
  pub selected : ℕ
  pub hidden_edge_count : ℕ

-- The options with their defaults filled in, but those of the warning threshold and the sets.
pub record GraphOpts : Type 0 where
  pub metric : MetricName
  pub window_seconds : ℕ
  pub rate_threshold : Ratio
  pub health_threshold : Ratio
  pub health_warn_threshold : Option Ratio
  pub selected_ids : List Str
  pub breaches : List Str
  pub warns : List Str
  pub min_edge_value : Ratio
  pub group_by : Option GroupLevel
  pub expanded_groups : List Str

-- The options that a call leaves out.
abbrev pub default_graph_opts : GraphOpts
default_graph_opts = record {
  metric = data_transferred;
  window_seconds = 300;
  rate_threshold = whole 128;
  health_threshold = whole 10;
  health_warn_threshold = none;
  selected_ids = [];
  breaches = [];
  warns = [];
  min_edge_value = whole 0;
  group_by = none;
  expanded_groups = [];
}

abbrev pub has : List Str → Str → Bool
has ids k = contains str_discrete k ids

-- An absent selection and an empty one keep every node.
unfoldable pub kept_nodes : GraphOpts → List TopoNode → List TopoNode
kept_nodes opts nodes =
    if length opts.selected_ids == 0 then nodes else filter (λ n. has opts.selected_ids n.id) nodes

unfoldable pub pipeline_of : GraphOpts → Topology → GroupingResult
unfolding kept_nodes
pipeline_of opts topo =
    let kept = kept_nodes opts topo.nodes in
    elim opts.group_by [
      | none ↦ record { nodes = kept; edges = topo.edges; meta = [] }
      | some by ↦ apply_grouping kept topo.edges by opts.expanded_groups
    ]

-- `m.set(id, (m.get(id) ?? 0) + v)`
abbrev pub add_at : Str → Ratio → List (Str × Ratio) → List (Str × Ratio)
add_at id v m = put str_discrete id (ratio_add (or_else (get str_discrete id m) (whole 0)) v) m

-- The self-loops of the kept nodes.
unfoldable pub self_loops :
    MetricName → List Str → List Edge → List (Str × Ratio) → List (Str × Ratio)
self_loops metric kept_ids [] acc = acc
self_loops metric kept_ids (e ∷ edges) acc = self_loops metric kept_ids edges (
    if same_text e.source e.target && has kept_ids e.source
    then add_at e.source (metric_value metric e.metrics) acc
    else acc)

-- `a >= b`
abbrev pub ratio_ge : Ratio → Ratio → Bool
ratio_ge a b = not (ratio_lt a b)

abbrev pub warn_threshold : GraphOpts → Ratio
warn_threshold opts =
    or_else opts.health_warn_threshold
      (record opts.health_threshold { den = opts.health_threshold.den * 2 })

unfoldable pub link_of : GraphOpts → Edge → GraphLink
unfolding metric_value rate_per_gb
link_of opts e =
    let bytes = or_else e.metrics.data_transferred 0 in
    let rate : Ratio = record { num = bytes; den = opts.window_seconds } in
    let retrans_rate = rate_per_gb (or_else e.metrics.retransmissions 0) bytes in
    record {
      id = e.id;
      source = e.source;
      target = e.target;
      value = metric_value opts.metric e.metrics;
      rate = rate;
      dashed = ratio_lt opts.rate_threshold rate;
      health =
          if ratio_ge retrans_rate opts.health_threshold
          then danger_link
          else (if ratio_ge retrans_rate (warn_threshold opts) then warn_link else ok_link);
      category = e.category;
    }

-- The links of the edges between two different kept nodes.
unfoldable pub all_links : GraphOpts → List Str → List Edge → List GraphLink
unfolding link_of
all_links opts kept_ids [] = []
all_links opts kept_ids (e ∷ edges) =
    let rest = all_links opts kept_ids edges in
    if same_text e.source e.target
    then rest
    else (if has kept_ids e.source && has kept_ids e.target then link_of opts e ∷ rest else rest)

unfoldable pub shown_links : GraphOpts → List GraphLink → List GraphLink
shown_links opts links =
    if ratio_lt (whole 0) opts.min_edge_value
    then filter (λ l. ratio_ge l.value opts.min_edge_value) links
    else links

-- `new Map(nodes.map((n) => [n.id, n.az]))`
unfoldable pub az_by_id : List TopoNode → List (Str × Option Str) → List (Str × Option Str)
az_by_id [] acc = acc
az_by_id (n ∷ nodes) acc = az_by_id nodes (put str_discrete n.id n.az acc)

abbrev pub az_at : List (Str × Option Str) → Str → Option Str
az_at azs id = elim (get str_discrete id azs) [ none ↦ none | some az ↦ truthy az ]

abbrev pub crosses : List (Str × Option Str) → GraphLink → Bool
crosses azs l = elim (az_at azs l.source) [
  | none ↦ false
  | some a ↦ elim (az_at azs l.target) [ none ↦ false | some b ↦ not (same_text a b) ]
]

-- The ends of the links that pass a test, as a set.
unfoldable pub ends_of_links : (GraphLink → Bool) → List GraphLink → List Str → List Str
ends_of_links p [] acc = acc
ends_of_links p (l ∷ links) acc =
    ends_of_links p links
      (if p l then add str_discrete (add str_discrete acc l.source) l.target else acc)

abbrev pub ends_set : List GraphLink → List Str
ends_set links = ends_of_links (λ _. true) links []

unfoldable pub add_looped : List (Str × Ratio) → List Str → List Str
add_looped [] acc = acc
add_looped ((id, v) ∷ loops) acc =
    add_looped loops (if ratio_lt (whole 0) v then add str_discrete acc id else acc)

-- The nodes that had a link and are left with none and no self-loop.
unfoldable pub orphaned_ids : List GraphLink → List GraphLink → List (Str × Ratio) → List Str
unfolding ends_of_links add_looped
orphaned_ids before links loops =
    let incident_after = add_looped loops (ends_set links) in
    if ltb 0 (length before - length links)
    then filter (λ id. not (has incident_after id)) (ends_set before)
    else []

unfoldable pub link_traffic : List GraphLink → List (Str × Ratio) → List (Str × Ratio)
link_traffic [] acc = acc
link_traffic (l ∷ links) acc =
    link_traffic links (add_at l.target l.value (add_at l.source l.value acc))

unfoldable pub loop_traffic : List (Str × Ratio) → List (Str × Ratio) → List (Str × Ratio)
loop_traffic [] acc = acc
loop_traffic ((id, v) ∷ loops) acc = loop_traffic loops (add_at id v acc)

abbrev pub amount_at : List (Str × Ratio) → Str → Ratio
amount_at m id = or_else (get str_discrete id m) (whole 0)

unfoldable pub max_traffic : List (Str × Ratio) → List TopoNode → Ratio
max_traffic traffic [] = whole 0
max_traffic traffic (n ∷ nodes) =
    let rest = max_traffic traffic nodes in
    let here = amount_at traffic n.id in if ratio_lt rest here then here else rest

unfoldable pub status_of_node : GraphOpts → Str → Ratio → NodeStatus
status_of_node opts id traffic =
    if has opts.breaches id
    then danger_node
    else (if has opts.warns id
        then warn_node
        else (if traffic.num == 0 then idle_node else ok_node))

-- What the nodes are drawn from.
pub record Drawing : Type 0 where
  pub opts : GraphOpts
  pub traffic : List (Str × Ratio)
  pub greatest : Ratio
  pub loops : List (Str × Ratio)
  pub cross_az_ids : List Str
  pub meta : List (Str × GroupMeta)

unfoldable pub drawing :
    GraphOpts → GroupingResult → List (Str × Ratio) → List GraphLink → List TopoNode → Drawing
unfolding az_by_id ends_of_links link_traffic loop_traffic max_traffic
drawing opts pipeline loops links rendered =
    let traffic = loop_traffic loops (link_traffic links []) in
    record {
      opts = opts;
      traffic = traffic;
      greatest = max_traffic traffic rendered;
      loops = loops;
      cross_az_ids = ends_of_links (crosses (az_by_id pipeline.nodes [])) links [];
      meta = pipeline.meta;
    }

unfoldable pub draw_node : Drawing → TopoNode → GraphNode
unfolding status_of_node
draw_node d n =
    let traffic = amount_at d.traffic n.id in
    record {
      id = n.id;
      label = n.label;
      kind = n.kind;
      radius = if ratio_lt (whole 0) d.greatest then some (traffic, d.greatest) else none;
      traffic = traffic;
      self_bytes = amount_at d.loops n.id;
      status = status_of_node d.opts n.id traffic;
      cross_az = has d.cross_az_ids n.id;
      group = get str_discrete n.id d.meta;
    }

unfoldable pub build_graph_model : GraphOpts → Topology → GraphModel
unfolding pipeline_of self_loops all_links shown_links orphaned_ids drawing draw_node
build_graph_model opts topo =
    let pipeline = pipeline_of opts topo in
    let kept_ids = map (λ n. n.id) pipeline.nodes in
    let loops = self_loops opts.metric kept_ids pipeline.edges [] in
    let before = all_links opts kept_ids pipeline.edges in
    let links = shown_links opts before in
    let orphans = orphaned_ids before links loops in
    let rendered = filter (λ n. not (has orphans n.id)) pipeline.nodes in
    let nodes = map (draw_node (drawing opts pipeline loops links rendered)) rendered in
    record {
      nodes = nodes;
      links = links;
      total = length topo.nodes;
      selected = length nodes;
      hidden_edge_count = length before - length links;
    }
