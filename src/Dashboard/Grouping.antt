-- ===== src/Dashboard/Grouping.antt =====
-- The collapse of the nodes of a map into groups: applyGrouping of app/src/lib/topology-graph.ts.
pub mod Ends
pub mod Conserved
use nfm_dashboard.Prelude.{
  ℕ, suc, ◌+◌, ◌*◌, Option, none, some, List, [], ◌∷◌, ◌++◌, map, Bool, true, false, not, ◌&&◌, leb,
  ltb, if◌then◌else◌, or_else,
}
use nfm_dashboard.Prelude.Text.{Str, codes, str_discrete, str_le}
use nfm_dashboard.Prelude.Map.{get, put, keys, values}
use nfm_dashboard.Prelude.Set.{contains, add}
use nfm_dashboard.Prelude.Ratio.{Ratio, whole}
use nfm_dashboard.Collector.Types.{TopoNode, node, DestCategory}
use nfm_dashboard.Dashboard.Snapshot.{Metrics, Edge, ratio_add}

-- The levels of `GroupBy` but 'none'.
pub data GroupLevel : Type 0 where
  namespace_group az_group cluster_group : GroupLevel

pub record GroupMeta : Type 0 where
  pub key : Str
  pub member_count : ℕ
  pub expanded : Bool

pub record GroupingResult : Type 0 where
  pub nodes : List TopoNode
  pub edges : List Edge
  pub meta : List (Str × GroupMeta)

abbrev pub group_unknown : Str
group_unknown = codes "unknown"

unfoldable pub group_key_of : TopoNode → GroupLevel → Str
group_key_of n by =
    or_else
      (elim by [ namespace_group ↦ n.namespace | az_group ↦ n.az | cluster_group ↦ n.cluster ])
      group_unknown

unfoldable pub level_text : GroupLevel → Str
level_text by = elim by [
  | namespace_group ↦ codes "namespace"
  | az_group ↦ codes "az"
  | cluster_group ↦ codes "cluster"
]

abbrev pub group_node_id : GroupLevel → Str → Str
group_node_id by key = codes "group:" ++ level_text by ++ codes ":" ++ key

-- The first loop over the nodes: the key of each node, and how many members each key has.
unfoldable pub key_by_node : GroupLevel → List TopoNode → List (Str × Str) → List (Str × Str)
key_by_node by [] acc = acc
key_by_node by (n ∷ nodes) acc =
    key_by_node by nodes (put str_discrete n.id (group_key_of n by) acc)

unfoldable pub member_counts : GroupLevel → List TopoNode → List (Str × ℕ) → List (Str × ℕ)
member_counts by [] acc = acc
member_counts by (n ∷ nodes) acc =
    let key = group_key_of n by in
    member_counts by nodes (put str_discrete key (suc (or_else (get str_discrete key acc) 0)) acc)

-- A node that is not kept has no key; it is not asked for one.
abbrev pub key_of : List (Str × Str) → Str → Str
key_of node_keys id = or_else (get str_discrete id node_keys) (codes "undefined")

unfoldable pub eff_id_of : GroupLevel → List Str → List (Str × Str) → Str → Str
eff_id_of by expanded node_keys id =
    let key = key_of node_keys id in
    if contains str_discrete key expanded then id else group_node_id by key

abbrev pub group_node : GroupLevel → Str → TopoNode
group_node by key = record {
  id = group_node_id by key;
  kind = node;
  label = key;
  namespace = elim by [ namespace_group ↦ some key | _ ↦ none ];
  az = elim by [ az_group ↦ some key | _ ↦ none ];
  cluster = elim by [ cluster_group ↦ some key | _ ↦ none ];
  vpc_id = none;
}

-- The second loop: the members of the expanded groups, and each other group once, at the place of its
-- first member.
pub record Emitted : Type 0 where
  pub nodes : List TopoNode
  pub emitted : List Str
  pub meta : List (Str × GroupMeta)

module _ (by : GroupLevel) (expanded : List Str) where
  unfoldable pub emit_node : List (Str × Str) → List (Str × ℕ) → TopoNode → Emitted → Emitted
  emit_node node_keys counts n acc =
      let key = key_of node_keys n.id in
      let gid = group_node_id by key in
      if contains str_discrete key expanded
      then record acc { nodes = acc.nodes ++ n ∷ [] }
      else (if contains str_discrete gid acc.emitted then acc else record {
        nodes = acc.nodes ++ group_node by key ∷ [];
        emitted = add str_discrete acc.emitted gid;
        meta =
            put str_discrete gid
              (record {
                key = key;
                member_count = or_else (get str_discrete key counts) 0;
                expanded = false;
              })
              acc.meta;
      })

  unfoldable pub emit_nodes : List (Str × Str) → List (Str × ℕ) → List TopoNode → Emitted → Emitted
  unfolding emit_node
  emit_nodes node_keys counts [] acc = acc
  emit_nodes node_keys counts (n ∷ nodes) acc =
      emit_nodes node_keys counts nodes (emit_node node_keys counts n acc)

-- The sums over the edges of one pair; `max_bytes` is missing while no edge was added.
pub record Agg : Type 0 where
  pub source : Str
  pub target : Str
  pub bytes : ℕ
  pub retrans : ℕ
  pub timeouts : ℕ
  pub rtt_weighted : Ratio
  pub rtt_weight_bytes : ℕ
  pub rtt_sum : Ratio
  pub rtt_count : ℕ
  pub category : DestCategory
  pub max_bytes : Option ℕ

abbrev pub new_agg : Str → Str → Edge → Agg
new_agg source target e = record {
  source = source;
  target = target;
  bytes = 0;
  retrans = 0;
  timeouts = 0;
  rtt_weighted = whole 0;
  rtt_weight_bytes = 0;
  rtt_sum = whole 0;
  rtt_count = 0;
  category = e.category;
  max_bytes = none;
}

abbrev pub bytes_of_edge : Edge → ℕ
bytes_of_edge e = or_else e.metrics.data_transferred 0

unfoldable pub add_rtt : Edge → Agg → Agg
unfolding ratio_add
add_rtt e slot = elim e.metrics.round_trip_time [
  | none ↦ slot
  | some rtt ↦
      let bytes = bytes_of_edge e in
      record slot {
        rtt_weighted = ratio_add slot.rtt_weighted (record rtt { num = rtt.num * bytes });
        rtt_weight_bytes = slot.rtt_weight_bytes + bytes;
        rtt_sum = ratio_add slot.rtt_sum rtt;
        rtt_count = suc slot.rtt_count;
      }
]

-- The category of a pair is that of its heaviest edge.
unfoldable pub heaviest_so_far : Edge → Agg → Agg
heaviest_so_far e slot =
    let bytes = bytes_of_edge e in
    if leb (or_else slot.max_bytes 0) bytes
    then record slot { max_bytes = some bytes; category = e.category }
    else slot

unfoldable pub add_edge : Edge → Agg → Agg
unfolding add_rtt heaviest_so_far
add_edge e slot = heaviest_so_far e (
    add_rtt e (record slot {
      bytes = slot.bytes + bytes_of_edge e;
      retrans = slot.retrans + or_else e.metrics.retransmissions 0;
      timeouts = slot.timeouts + or_else e.metrics.timeouts 0;
    }))

-- The two effective ends of an edge, in order.
abbrev pub ordered_ends : Str → Str → Str × Str
ordered_ends a b = if str_le a b then (a, b) else (b, a)

-- The two names with the unit separator, whose code is 31.
abbrev pub pair_of : Str → Str → Str
pair_of source target = source ++ 31 ∷ target

-- The loop over the edges; `eff` gives the effective end of a kept node.
unfoldable pub aggregate_edges :
    List Str → (Str → Str) → List Edge → List (Str × Agg) → List (Str × Agg)
unfolding add_edge
aggregate_edges kept_ids eff [] acc = acc
aggregate_edges kept_ids eff (e ∷ edges) acc =
    let (source, target) = ordered_ends (eff e.source) (eff e.target) in
    let pk = pair_of source target in
    let slot = or_else (get str_discrete pk acc) (new_agg source target e) in
    aggregate_edges kept_ids eff edges (
      if contains str_discrete e.source kept_ids && contains str_discrete e.target kept_ids
      then put str_discrete pk (add_edge e slot) acc
      else acc)

abbrev pub mean_rtt : Agg → Option Ratio
mean_rtt s =
    if ltb 0 s.rtt_count
    then some (
        if ltb 0 s.rtt_weight_bytes
        then record s.rtt_weighted { den = s.rtt_weighted.den * s.rtt_weight_bytes }
        else record s.rtt_sum { den = s.rtt_sum.den * s.rtt_count })
    else none

unfoldable pub edge_of_agg : Agg → Edge
edge_of_agg s = record {
  id = codes "agg:" ++ pair_of s.source s.target;
  source = s.source;
  target = s.target;
  metrics = record {
    data_transferred = some s.bytes;
    retransmissions = some s.retrans;
    timeouts = some s.timeouts;
    round_trip_time = mean_rtt s;
  };
  category = s.category;
}

unfoldable pub apply_grouping : List TopoNode → List Edge → GroupLevel → List Str → GroupingResult
unfolding key_by_node member_counts eff_id_of emit_nodes aggregate_edges edge_of_agg
apply_grouping kept_nodes edges by expanded =
    let node_keys = key_by_node by kept_nodes [] in
    let counts = member_counts by kept_nodes [] in
    let shown =
      emit_nodes by expanded node_keys counts kept_nodes
        (record { nodes = []; emitted = []; meta = [] }) in
    let eff = eff_id_of by expanded node_keys in
    let acc = aggregate_edges (keys node_keys) eff edges [] in
    record { nodes = shown.nodes; edges = map edge_of_agg (values acc); meta = shown.meta }
