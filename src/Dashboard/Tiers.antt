-- ===== src/Dashboard/Tiers.antt =====
-- The aggregated views of the topology: app/src/lib/topology.ts.
pub mod Resolved
pub mod Filtered
use nfm_dashboard.Prelude.{
  ℕ, ◌+◌, Option, none, some, List, [], ◌∷◌, ◌++◌, map, flat_map, filter, take, length, Bool, true,
  false, not, ◌&&◌, ◌||◌, leb, ◌==◌, if◌then◌else◌, or_else, ite,
}
use nfm_dashboard.Prelude.Text.{Str, codes, str_discrete, truthy}
use nfm_dashboard.Prelude.Map.{get, put, values}
use nfm_dashboard.Prelude.Set.{contains, add, to_set}
use nfm_dashboard.Prelude.Sort.{sort}
use nfm_dashboard.Prelude.Ratio.{Ratio, whole, ratio_lt}
use nfm_dashboard.Collector.Types.{
  MetricName, DestCategory, DestCategory-discrete, NodeKind, pod, node, vpc, external, TopoNode,
}
use nfm_dashboard.Dashboard.Snapshot.{Edge, Topology, metric_value, ratio_add, same_text}
use nfm_dashboard.Dashboard.Hops.{
  ResourceKind, pod_resource, service_resource, namespace_resource, cluster_resource,
  node_resource_kind,
}

pub data TierLevel : Type 0 where
  cluster_tier namespace_tier service_tier pod_tier : TierLevel

pub record TierNode : Type 0 where
  pub id : Str
  pub kind : ResourceKind
  pub label : Str
  pub tier : ℕ

pub record TierLink : Type 0 where
  pub id : Str
  pub source : Str
  pub target : Str
  pub bytes : ℕ
  pub category : DestCategory

pub record Cell : Type 0 where
  pub row : Str
  pub col : Str
  pub value : Ratio

pub record MatrixData : Type 0 where
  pub rows : List Str
  pub cols : List Str
  pub cells : List Cell

-- What stands before the last dash of a name, and what stands behind it.
unfoldable pub last_dash : Str → Option (Str × Str)
last_dash [] = none
last_dash (c ∷ s) = elim (last_dash s) [
  | some (front, back) ↦ some (c ∷ front, back)
  | none ↦ if c == 45 then some ([], s) else none
]

abbrev pub between : ℕ → ℕ → ℕ → Bool
between lo hi c = leb lo c && leb c hi

abbrev pub is_digit : ℕ → Bool
is_digit = between 48 57

abbrev pub every : (ℕ → Bool) → Str → Bool
every p [] = true
every p (c ∷ s) = p c && every p s

-- `[a-z0-9]{5}`, `[0-9a-f]{6,10}` and `\d+`
abbrev pub is_pod_hash : Str → Bool
is_pod_hash t = (length t == 5) && every (λ c. between 97 122 c || is_digit c) t

abbrev pub is_set_hash : Str → Bool
is_set_hash t = between 6 10 (length t) && every (λ c. is_digit c || between 97 102 c) t

abbrev pub is_ordinal : Str → Bool
is_ordinal t = leb 1 (length t) && every is_digit t

-- `s.replace(/-…$/, '')`, for a pattern without a dash
unfoldable pub strip_tail : (Str → Bool) → Str → Str
unfolding last_dash
strip_tail p s = elim (last_dash s) [ none ↦ s | some (front, back) ↦ if p back then front else s ]

unfoldable pub service_of : Str → Str
unfolding strip_tail
service_of label =
    or_else
      (truthy
        (some (strip_tail is_ordinal (strip_tail is_set_hash (strip_tail is_pod_hash label)))))
      label

unfoldable pub tier_of : NodeKind → ℕ
tier_of k = elim k [ pod ↦ 0 | node ↦ 1 | vpc ↦ 2 | external ↦ 2 ]

-- A node as itself, with a kind.
abbrev pub as_itself : ResourceKind → TopoNode → TierNode
as_itself kind n = record { id = n.id; kind = kind; label = n.label; tier = tier_of n.kind }

abbrev pub named : ResourceKind → Str → TopoNode → TierNode
named kind id n = record { id = id; kind = kind; label = id; tier = tier_of n.kind }

unfoldable pub pod_entity : TierLevel → TopoNode → TierNode
unfolding service_of
pod_entity level n = elim level [
  | pod_tier ↦ as_itself pod_resource n
  | service_tier ↦ elim (truthy (some (service_of n.label))) [
    | none ↦ as_itself pod_resource n
    | some svc ↦ elim (truthy n.namespace) [
      | some ns ↦ named service_resource (ns ++ codes "/" ++ svc) n
      | none ↦ named service_resource svc n
    ]
  ]
  | namespace_tier ↦ elim (truthy n.namespace) [
    | none ↦ as_itself pod_resource n
    | some ns ↦ named namespace_resource ns n
  ]
  | cluster_tier ↦ named cluster_resource (or_else (truthy n.cluster) (8212 ∷ [])) n
]

unfoldable pub level_entity_of : TopoNode → TierLevel → TierNode
unfolding pod_entity node_resource_kind
level_entity_of n level = elim n.kind [
  | pod ↦ pod_entity level n
  | _ ↦ as_itself (node_resource_kind n.kind) n
]

-- The two maps of aggregateNodes: by the node, and the entities in first-seen order.
unfoldable pub by_node_id :
    TierLevel → List TopoNode → List (Str × TierNode) → List (Str × TierNode)
by_node_id level [] acc = acc
by_node_id level (n ∷ nodes) acc =
    by_node_id level nodes (put str_discrete n.id (level_entity_of n level) acc)

unfoldable pub entities_of :
    TierLevel → List TopoNode → List (Str × TierNode) → List (Str × TierNode)
entities_of level [] acc = acc
entities_of level (n ∷ nodes) acc =
    let ent = level_entity_of n level in
    entities_of level nodes
      (elim (get str_discrete ent.id acc) [ none ↦ put str_discrete ent.id ent acc | some _ ↦ acc ])

-- `byNodeId.get(id)?.id ?? id`
unfoldable pub entity_id : List (Str × TierNode) → Str → Str
entity_id by_id id = elim (get str_discrete id by_id) [ none ↦ id | some ent ↦ ent.id ]

-- The two names around an arrow, whose code is 8594.
abbrev pub arrow : Str → Str → Str
arrow s t = s ++ 8594 ∷ t

abbrev pub next_link : Option TierLink → Str → Str → Edge → TierLink
next_link none s t e = record {
  id = arrow s t;
  source = s;
  target = t;
  bytes = or_else e.metrics.data_transferred 0;
  category = e.category;
}
next_link (some prev) s t e = record prev {
  bytes = prev.bytes + or_else e.metrics.data_transferred 0;
}

unfoldable pub add_tier_link : Str → Str → Edge → List (Str × TierLink) → List (Str × TierLink)
add_tier_link s t e links =
    let id = arrow s t in put str_discrete id (next_link (get str_discrete id links) s t e) links

unfoldable pub tier_links : (Str → Str) → List Edge → List (Str × TierLink) → List (Str × TierLink)
unfolding add_tier_link
tier_links entity [] links = links
tier_links entity (e ∷ edges) links =
    let s = entity e.source in
    let t = entity e.target in
    tier_links entity edges (if same_text s t then links else add_tier_link s t e links)

-- The entity that a node belongs to, by the map over the nodes of a snapshot.
abbrev pub entity_in : Topology → TierLevel → Str → Str
entity_in topo level = entity_id (by_node_id level topo.nodes [])

unfoldable pub build_tiers : Topology → TierLevel → List TierNode × List TierLink
unfolding by_node_id entities_of entity_id tier_links
build_tiers topo level = (
  values (entities_of level topo.nodes []),
  values (tier_links (entity_in topo level) topo.edges []),
)

unfoldable pub see_cell : MetricName → (Str → Str) → Edge → List (Str × Cell) → List (Str × Cell)
unfolding metric_value ratio_add
see_cell metric entity e sums =
    let row = entity e.source in
    let col = entity e.target in
    let cell =
      or_else (get str_discrete (arrow row col) sums)
        (record { row = row; col = col; value = whole 0 }) in
    put str_discrete (arrow row col)
      (record cell { value = ratio_add cell.value (metric_value metric e.metrics) }) sums

unfoldable pub see_cells :
    MetricName → (Str → Str) → List Edge → List (Str × Cell) → List (Str × Cell)
unfolding see_cell
see_cells metric entity [] sums = sums
see_cells metric entity (e ∷ edges) sums =
    see_cells metric entity edges (see_cell metric entity e sums)

unfoldable pub build_matrix : Topology → MetricName → TierLevel → MatrixData
unfolding see_cells to_set
build_matrix topo metric level =
    let entity = entity_in topo level in
    record {
      rows = to_set str_discrete (map (λ e. entity e.source) topo.edges);
      cols = to_set str_discrete (map (λ e. entity e.target) topo.edges);
      cells = values (see_cells metric entity topo.edges []);
    }

abbrev pub ids_of : List TopoNode → List Str
ids_of = map (λ n. n.id)

-- Whether a node passes the cluster filter: it has none, or that one.
abbrev pub in_cluster : Str → TopoNode → Bool
in_cluster cluster n = elim (truthy n.cluster) [ none ↦ true | some c ↦ same_text c cluster ]

abbrev pub has_ends : List Str → Edge → Bool
has_ends ids e = contains str_discrete e.source ids && contains str_discrete e.target ids

abbrev pub is_category : Option DestCategory → Edge → Bool
is_category none e = true
is_category (some c) e = ite (DestCategory-discrete e.category c) true false

-- The nodes and the edges that pass the cluster filter.
unfoldable pub cluster_nodes : Str → List TopoNode → List TopoNode
cluster_nodes cluster nodes =
    if length cluster == 0 then nodes else filter (in_cluster cluster) nodes

unfoldable pub cluster_edges : Str → List TopoNode → List Edge → List Edge
cluster_edges cluster nodes edges =
    if length cluster == 0
    then edges
    else filter (has_ends (ids_of (cluster_nodes cluster nodes))) edges

-- An empty cluster and a missing category filter nothing.
unfoldable pub filter_topology : Topology → Str → Option DestCategory → Topology
unfolding cluster_nodes cluster_edges to_set
filter_topology topo cluster category =
    let edges = filter (is_category category) (cluster_edges cluster topo.nodes topo.edges) in
    let referenced = to_set str_discrete (flat_map (λ e. e.source ∷ e.target ∷ []) edges) in
    if (length cluster == 0) && elim category [ none ↦ true | some _ ↦ false ]
    then topo
    else record {
      nodes =
          filter (λ n. contains str_discrete n.id referenced) (cluster_nodes cluster topo.nodes);
      edges = edges;
    }

-- The sign of `(b.metrics[metric] ?? 0) - (a.metrics[metric] ?? 0)`
abbrev pub heavier_on : MetricName → Edge → Edge → Bool
heavier_on metric a b = ratio_lt (metric_value metric b.metrics) (metric_value metric a.metrics)

unfoldable pub rank_edges : Topology → MetricName → ℕ → List Edge
rank_edges topo metric n = take n (sort (heavier_on metric) topo.edges)

-- The heavier of the best edge so far and the next one; the first of two equal ones stays.
abbrev pub better_edge : MetricName → Option Edge → Edge → Edge
better_edge metric none e = e
better_edge metric (some best) e = if heavier_on metric e best then e else best

unfoldable pub resolve_from :
    (Str → Str) → Str → Str → MetricName → List Edge → Option Edge → Option Edge
resolve_from entity source_id target_id metric [] best = best
resolve_from entity source_id target_id metric (e ∷ edges) best =
    resolve_from entity source_id target_id metric edges (
      if same_text (entity e.source) source_id && same_text (entity e.target) target_id
      then some (better_edge metric best e)
      else best)

unfoldable pub resolve_edge : Topology → TierLevel → Str → Str → MetricName → Option Edge
unfolding resolve_from
resolve_edge topo level source_id target_id metric =
    resolve_from (entity_in topo level) source_id target_id metric topo.edges none
