-- ===== src/Collector/Storage/Topology/Closed.antt =====
-- The graph is closed: the ends of its edges are among its nodes.
use nfm_dashboard.Prelude.{
  ℕ, ◌≤◌, Option, List, [], ◌∷◌, map, filter, flat_map, take, length, length-take-le, ◌≡◌, ◌⊎◌, inl,
  inr, refl, sym, ◌∙◌, All, All-of_Elem, All-Elem, Elem, Distinct, Elem-map, Elem-map_of,
  Elem-filter, Elem-filter_of, Elem-take, Distinct-take, Distinct-map-filter, map-take, arith,
  Option-cases,
}
use nfm_dashboard.Prelude.Text.{Str, str_discrete}
use nfm_dashboard.Prelude.Map.{
  get, keys, values, put-Distinct, All-put, Elem-keys-put_of, Elem-keys, get-Elem, Elem-values,
  map-values, collect-Distinct,
}
use nfm_dashboard.Prelude.Collect.{All-collect}
use nfm_dashboard.Prelude.Set.{
  contains, contains→Elem, Elem→contains, to_set, Elem-add_all, Elem-add_all_of,
}
use nfm_dashboard.Prelude.Sort.{sort, Elem-sort, sort-Distinct}
use nfm_dashboard.Collector.Types.{EndpointInfo, FlowEdge, TopoNode, TopoEdge}
use nfm_dashboard.Collector.Normalize.{endpoint_key}
use nfm_dashboard.Collector.Storage.Topology.{
  max_edges, node_of, node_in, add_node, nodes_from, merge_edge, merged_by_hash, heavier, ends_of,
  build_topology,
}

id-node_in : (cluster : Option Str) (ep : EndpointInfo) → (node_in cluster ep).id ≡ endpoint_key ep
unfolding node_in node_of
id-node_in cluster ep = ground arith

abbrev IsKeyed : List (Str × TopoNode) → Type 0
IsKeyed = All (λ x. x.1.id ≡ x.0)

add_node-IsKeyed : (m : List (Str × TopoNode)) (n : TopoNode) → IsKeyed m → IsKeyed (add_node m n)
unfolding add_node
add_node-IsKeyed m n h = elim (Option-cases (get str_discrete n.id m)) [
  | inl e ↦ rw (e, add_node) (All-put str_discrete (λ x. x.1.id ≡ x.0) n.id n m refl h)
  | inr (known, e) ↦ rw (e, add_node) h
]

add_node-Distinct :
    (m : List (Str × TopoNode)) (n : TopoNode) → Distinct (keys m) → Distinct (keys (add_node m n))
unfolding add_node
add_node-Distinct m n d = ground (arith, put-Distinct str_discrete n.id n m d)

Elem-keys-add_node :
    (m : List (Str × TopoNode)) (n : TopoNode) (k : Str)
    → (k ≡ n.id) ⊎ Elem k (keys m)
    → Elem k (keys (add_node m n))
unfolding add_node
Elem-keys-add_node m n k h = elim (Option-cases (get str_discrete n.id m)) [
  | inl e ↦ rw (e, add_node) (Elem-keys-put_of str_discrete n.id k n m h)
  | inr (known, e) ↦
      rw (e, add_node)
        (elim h [
          | inl p ↦
              rw p (Elem-keys str_discrete n.id known m (get-Elem str_discrete n.id known m e))
          | inr i ↦ i
        ])
]

-- The keys of the endpoints of the edges.
abbrev pub endpoints : List (FlowEdge ℕ) → List Str
endpoints = flat_map (λ e. endpoint_key e.a ∷ endpoint_key e.b ∷ [])

module _ (clusters : List (Str × Str)) where
  nodes_from-IsKeyed :
      (es : List (FlowEdge ℕ)) (m : List (Str × TopoNode))
      → IsKeyed m
      → IsKeyed (nodes_from clusters es m)
  unfolding nodes_from
  nodes_from-IsKeyed [] m h = h
  nodes_from-IsKeyed (e ∷ es) m h =
      nodes_from-IsKeyed es _ (add_node-IsKeyed _ _ (add_node-IsKeyed m _ h))

  nodes_from-Distinct :
      (es : List (FlowEdge ℕ)) (m : List (Str × TopoNode))
      → Distinct (keys m)
      → Distinct (keys (nodes_from clusters es m))
  unfolding nodes_from
  nodes_from-Distinct [] m d = d
  nodes_from-Distinct (e ∷ es) m d =
      nodes_from-Distinct es _ (add_node-Distinct _ _ (add_node-Distinct m _ d))

  Elem-nodes_from :
      (es : List (FlowEdge ℕ)) (m : List (Str × TopoNode)) (k : Str)
      → Elem k (keys m) ⊎ Elem k (endpoints es)
      → Elem k (keys (nodes_from clusters es m))
  unfolding nodes_from
  Elem-nodes_from [] m k h = elim h [ inl i ↦ i | inr i ↦ absurd i ]
  Elem-nodes_from (e ∷ es) m k h =
      let cluster = get str_discrete e.monitor clusters in
      let a = node_in cluster e.a in
      let b = node_in cluster e.b in
      let m' = add_node m a in
      let step = Elem-keys-add_node m' b k in
      Elem-nodes_from es _ k (elim h [
        | inl i ↦ inl (step (inr (Elem-keys-add_node m a k (inr i))))
        | inr (inl p) ↦
            inl (step (inr (Elem-keys-add_node m a k (inl (p ∙ sym (id-node_in cluster e.a))))))
        | inr (inr (inl p)) ↦ inl (step (inl (p ∙ sym (id-node_in cluster e.b))))
        | inr (inr (inr i)) ↦ inr i
      ])

-- What is known of a merged edge: its key is its identifier and its ends are endpoints of the edges.
abbrev pub IsMerged : List (FlowEdge ℕ) → Str × TopoEdge → Type 0
IsMerged es x = (x.1.id ≡ x.0) × Elem x.1.source (endpoints es) × Elem x.1.target (endpoints es)

Elem-endpoints :
    (es : List (FlowEdge ℕ)) (e : FlowEdge ℕ)
    → Elem e es
    → Elem (endpoint_key e.a) (endpoints es) × Elem (endpoint_key e.b) (endpoints es)
Elem-endpoints [] e m = absurd m
Elem-endpoints (x ∷ es) e (inl p) = rw p (inl refl, inr (inl refl))
Elem-endpoints (x ∷ es) e (inr m) = let (i, j) = Elem-endpoints es e m in (inr (inr i), inr (inr j))

pub merged_by_hash-IsMerged : (es : List (FlowEdge ℕ)) → All (IsMerged es) (merged_by_hash es)
unfolding merge_edge
merged_by_hash-IsMerged es =
    All-collect str_discrete (λ e. e.edge_hash) merge_edge (IsMerged es) es []
      (All-of_Elem _ es (λ e m. let (i, j) = Elem-endpoints es e m in (refl, i, j))) (λ v e h. h) tt

-- The edges of the graph before the cut, by weight.
abbrev pub ranked : List (FlowEdge ℕ) → List TopoEdge
ranked es = sort heavier (values (merged_by_hash es))

-- An identifier of an end of one of the edges.
abbrev IsEnd : List (FlowEdge ℕ) → TopoEdge → Type 0
IsEnd es x = Elem x.source (endpoints es) × Elem x.target (endpoints es)

ranked-IsEnd : (es : List (FlowEdge ℕ)) (x : TopoEdge) → Elem x (ranked es) → IsEnd es x
ranked-IsEnd es x m =
    let (k, i) = Elem-values (merged_by_hash es) x (Elem-sort heavier _ x m) in
    let (p, q, r) =
      All-Elem (IsMerged es) (merged_by_hash es) (k, x) (merged_by_hash-IsMerged es) i in
    (q, r)

pub ranked-Distinct : (es : List (FlowEdge ℕ)) → Distinct (map (λ x. x.id) (ranked es))
ranked-Distinct es =
    sort-Distinct heavier (λ (x : TopoEdge). x.id) (values (merged_by_hash es))
      (rw
        (map-values (λ x. x.id) (merged_by_hash es)
          (All-of_Elem _ _ (λ x m. (All-Elem (IsMerged es) _ x (merged_by_hash-IsMerged es) m).0)))
        (collect-Distinct str_discrete (λ e. e.edge_hash) merge_edge es [] tt))

Elem-ends :
    (xs : List TopoEdge) (x : TopoEdge)
    → Elem x xs
    → Elem x.source (flat_map ends_of xs) × Elem x.target (flat_map ends_of xs)
Elem-ends [] x m = absurd m
Elem-ends (y ∷ xs) x (inl p) = rw p (inl refl, inr (inl refl))
Elem-ends (y ∷ xs) x (inr m) = let (i, j) = Elem-ends xs x m in (inr (inr i), inr (inr j))

-- The nodes that are left of `nodes` when only those with the identifiers `ends` are used.
abbrev used_nodes : List Str → List TopoNode → List TopoNode
used_nodes ends = filter (λ n. contains str_discrete n.id (to_set str_discrete ends))

Elem-used_nodes :
    (ends : List Str) (nodes : List TopoNode) (k : Str)
    → Elem k ends
    → Elem k (map (λ n. n.id) nodes)
    → Elem k (map (λ n. n.id) (used_nodes ends nodes))
unfolding to_set
Elem-used_nodes ends nodes k used m =
    let (n, i, p) = Elem-map (λ (n : TopoNode). n.id) nodes k m in
    let inside =
      Elem→contains str_discrete k _ (Elem-add_all_of str_discrete [] ends k (inr used)) in
    rw p (
      Elem-map_of (λ (n : TopoNode). n.id) (used_nodes ends nodes) n
        (Elem-filter_of _ nodes n i (rw p at inside)))

used_nodes_used :
    (ends : List Str) (nodes : List TopoNode) → All (λ n. Elem n.id ends) (used_nodes ends nodes)
unfolding to_set
used_nodes_used ends nodes = All-of_Elem _ (used_nodes ends nodes) (λ n m.
    let (i, p) = Elem-filter _ nodes n m in
    elim (Elem-add_all str_discrete [] ends n.id (contains→Elem str_discrete n.id _ p)) [
      | inl k ↦ absurd k
      | inr k ↦ k
    ])

-- Every edge of the graph has both its ends among the nodes, every node is an end of an edge, no two
-- nodes and no two edges have the same identifier, and there are at most 2000 edges.
pub build_topology_closed :
    (es : List (FlowEdge ℕ)) (clusters : List (Str × Str)) (now : Str)
    → let t = build_topology es clusters now in
      let ids = map (λ n. n.id) t.nodes in
      All (λ x. Elem x.source ids × Elem x.target ids) t.edges
      × All (λ n. Elem n.id (flat_map ends_of t.edges)) t.nodes
      × Distinct ids
      × Distinct (map (λ x. x.id) t.edges)
      × (length t.edges ≤ max_edges)
unfolding build_topology
build_topology_closed es clusters now =
    let top = take max_edges (ranked es) in
    let nodes = nodes_from clusters es [] in
    let named = map-values (λ n. n.id) nodes (nodes_from-IsKeyed clusters es [] tt) in
    let present : (k : Str) → Elem k (endpoints es) → Elem k (map (λ n. n.id) (values nodes)) =
      λ k i. rw named (Elem-nodes_from clusters es [] k (inr i)) in
    (
      All-of_Elem _ top (λ x m.
          let (i, j) = Elem-ends top x m in
          let (q, r) = ranked-IsEnd es x (Elem-take max_edges (ranked es) x m) in
          (
            Elem-used_nodes (flat_map ends_of top) (values nodes) x.source i (present x.source q),
            Elem-used_nodes (flat_map ends_of top) (values nodes) x.target j (present x.target r),
          )),
      used_nodes_used (flat_map ends_of top) (values nodes),
      Distinct-map-filter (λ n. n.id) _ (values nodes)
          (rw named (nodes_from-Distinct clusters es [] tt)),
      rw (map-take (λ (x : TopoEdge). x.id) max_edges (ranked es))
          (Distinct-take max_edges _ (ranked-Distinct es)),
      length-take-le max_edges (ranked es),
    )
