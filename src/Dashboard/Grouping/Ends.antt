-- ===== src/Dashboard/Grouping/Ends.antt =====
-- The ends of the grouped edges are grouped nodes.
use mathlib.Core.Path.{subst}
use nfm_dashboard.Prelude.{
  ℕ, List, [], ◌∷◌, ◌++◌, map, true, ◌&&◌, or_else, ◌≡◌, ◌⊎◌, inl, inr, refl, sym, ◌∙◌, All,
  All-of_Elem, All-Elem, Elem, Elem-append_left, Elem-append_right, arith, Bool-cases, Option-cases,
}
use mathlib.Core.List.{map-append}
use nfm_dashboard.Prelude.Text.{Str, str_discrete}
use nfm_dashboard.Prelude.Map.{get, put, keys, get-Elem, Elem-keys-put, Elem-keys-put_of, All-put}
use nfm_dashboard.Prelude.Set.{contains, add, contains→Elem, Elem→contains, Elem-add}
use nfm_dashboard.Collector.Types.{TopoNode}
use nfm_dashboard.Dashboard.Snapshot.{Edge}
use nfm_dashboard.Dashboard.Grouping.{
  GroupLevel, key_by_node, key_of, eff_id_of, group_node, group_node_id, Emitted, emit_node,
  emit_nodes, Agg, new_agg, add_edge, add_rtt, heaviest_so_far, ordered_ends, pair_of,
  aggregate_edges,
}

abbrev pub ids_of : List TopoNode → List Str
ids_of = map (λ n. n.id)

Elem-keys-key_by_node :
    (by : GroupLevel) (nodes : List TopoNode) (acc : List (Str × Str)) (k : Str)
    → Elem k (keys (key_by_node by nodes acc))
    → Elem k (keys acc) ⊎ Elem k (ids_of nodes)
unfolding key_by_node
Elem-keys-key_by_node by [] acc k m = inl m
Elem-keys-key_by_node by (n ∷ nodes) acc k m = elim (Elem-keys-key_by_node by nodes _ k m) [
  | inr i ↦ inr (inr i)
  | inl i ↦ elim (Elem-keys-put str_discrete n.id k _ acc i) [ inl p ↦ inr (inl p) | inr j ↦ inl j ]
]

Elem-keys-key_by_node_of :
    (by : GroupLevel) (nodes : List TopoNode) (acc : List (Str × Str)) (k : Str)
    → Elem k (keys acc) ⊎ Elem k (ids_of nodes)
    → Elem k (keys (key_by_node by nodes acc))
unfolding key_by_node
Elem-keys-key_by_node_of by [] acc k (inl m) = m
Elem-keys-key_by_node_of by [] acc k (inr m) = absurd m
Elem-keys-key_by_node_of by (n ∷ nodes) acc k h = Elem-keys-key_by_node_of by nodes _ k (elim h [
  | inl i ↦ inl (Elem-keys-put_of str_discrete n.id k _ acc (inr i))
  | inr (inl p) ↦ inl (Elem-keys-put_of str_discrete n.id k _ acc (inl p))
  | inr (inr i) ↦ inr i
])

-- The keys of the map are the identifiers of the nodes.
pub contains-key_by_node :
    (by : GroupLevel) (nodes : List TopoNode) (k : Str)
    → contains str_discrete k (keys (key_by_node by nodes []))
      ≡ contains str_discrete k (ids_of nodes)
contains-key_by_node by nodes k =
    let all = keys (key_by_node by nodes []) in
    elim (Bool-cases (contains str_discrete k (ids_of nodes))) [
      | inl e ↦
          Elem→contains str_discrete k all
            (Elem-keys-key_by_node_of by nodes [] k (inr (contains→Elem str_discrete k _ e)))
          ∙ sym e
      | inr e ↦ elim (Bool-cases (contains str_discrete k all)) [
        | inr f ↦ f ∙ sym e
        | inl f ↦ elim (Elem-keys-key_by_node by nodes [] k (contains→Elem str_discrete k all f)) [
          | inl i ↦ absurd i
          | inr i ↦ ground (arith, Elem→contains str_discrete k (ids_of nodes) i)
        ]
      ]
    ]

module _ (by : GroupLevel) (expanded : List Str) (node_keys : List (Str × Str))
    (counts : List (Str × ℕ)) where
  -- What was emitted is among the nodes.
  abbrev IsEmitted : Emitted → Type 0
  IsEmitted acc = All (λ k. Elem k (ids_of acc.nodes)) acc.emitted

  Elem-ids_append :
      (nodes : List TopoNode) (n : TopoNode) (k : Str)
      → (k ≡ n.id) ⊎ Elem k (ids_of nodes)
      → Elem k (ids_of (nodes ++ n ∷ []))
  Elem-ids_append nodes n k h = rw (map-append (λ (x : TopoNode). x.id) nodes) (elim h [
    | inl p ↦ Elem-append_right (ids_of nodes) (n.id ∷ []) k (inl p)
    | inr i ↦ Elem-append_left (ids_of nodes) (n.id ∷ []) k i
  ])

  -- A node has its effective identifier among the nodes that are shown, and those stay.
  emit_node-IsEmitted :
      (n : TopoNode) (acc : Emitted)
      → IsEmitted acc
      → let acc' = emit_node by expanded node_keys counts n acc in
        IsEmitted acc'
        × Elem (eff_id_of by expanded node_keys n.id) (ids_of acc'.nodes)
        × ((k : Str) → Elem k (ids_of acc.nodes) → Elem k (ids_of acc'.nodes))
  unfolding emit_node eff_id_of
  emit_node-IsEmitted n acc h =
      let key = key_of node_keys n.id in
      let gid = group_node_id by key in
      elim (Bool-cases (contains str_discrete key expanded)) [
        | inl b ↦ rw b (
          All-of_Elem _ acc.emitted
              (λ k i. Elem-ids_append acc.nodes n k (inr (All-Elem _ acc.emitted k h i))),
          Elem-ids_append acc.nodes n n.id (inl refl),
          λ k i. Elem-ids_append acc.nodes n k (inr i),
        )
        | inr b ↦ elim (Bool-cases (contains str_discrete gid acc.emitted)) [
          | inl c ↦
              rw (b, c)
                (
                  h,
                  All-Elem (λ k. Elem k (ids_of acc.nodes)) acc.emitted gid h
                      (contains→Elem str_discrete gid acc.emitted c),
                  λ k i. i,
                )
          | inr c ↦
              let g = group_node by key in
              rw (b, c)
                (
                  All-of_Elem _ (add str_discrete acc.emitted gid) (λ k i.
                      Elem-ids_append acc.nodes g k
                        (elim (Elem-add str_discrete acc.emitted gid k i) [
                          | inl p ↦ inl p
                          | inr j ↦
                              inr (All-Elem (λ x. Elem x (ids_of acc.nodes)) acc.emitted k h j)
                        ])),
                  Elem-ids_append acc.nodes g gid (inl refl),
                  λ k i. Elem-ids_append acc.nodes g k (inr i),
                )
        ]
      ]

  pub emit_nodes-IsEmitted :
      (nodes : List TopoNode) (acc : Emitted)
      → IsEmitted acc
      → let shown = emit_nodes by expanded node_keys counts nodes acc in
        ((k : Str) → Elem k (ids_of acc.nodes) → Elem k (ids_of shown.nodes))
        × ((k : Str)
            → Elem k (ids_of nodes)
            → Elem (eff_id_of by expanded node_keys k) (ids_of shown.nodes))
  unfolding emit_nodes
  emit_nodes-IsEmitted [] acc h = (λ k i. i, λ k i. absurd i)
  emit_nodes-IsEmitted (n ∷ nodes) acc h =
      let (h', here, kept) = emit_node-IsEmitted n acc h in
      let (later, rest) = emit_nodes-IsEmitted nodes _ h' in
      (
        λ k i. later k (kept k i),
        λ k i. elim i [
          | inl p ↦
              subst
                (λ x.
                  Elem (eff_id_of by expanded node_keys x)
                    (ids_of (emit_nodes by expanded node_keys counts (n ∷ nodes) acc).nodes))
                (sym p) (later _ here)
          | inr j ↦ rest k j
        ],
      )

abbrev pub HasEnds : List Str → Agg → Type 0
HasEnds ids s = Elem s.source ids × Elem s.target ids

add_edge-HasEnds :
    (ids : List Str) (e : Edge) (s : Agg) → HasEnds ids s → HasEnds ids (add_edge e s)
unfolding add_edge add_rtt heaviest_so_far
add_edge-HasEnds ids e s h = ground arith

ordered_ends-HasEnds :
    (ids : List Str) (a b : Str) (e : Edge)
    → Elem a ids
    → Elem b ids
    → let (source, target) = ordered_ends a b in HasEnds ids (new_agg source target e)
ordered_ends-HasEnds ids a b e h k = ground arith

-- Where the kept identifiers have their effective ends among those given, so have the sums.
pub aggregate_edges-HasEnds :
    (kept ids : List Str) (eff : Str → Str) (edges : List Edge) (acc : List (Str × Agg))
    → ((k : Str) → contains str_discrete k kept ≡ true → Elem (eff k) ids)
    → All (λ x. HasEnds ids x.1) acc
    → All (λ x. HasEnds ids x.1) (aggregate_edges kept eff edges acc)
unfolding aggregate_edges
aggregate_edges-HasEnds kept ids eff [] acc g h = h
aggregate_edges-HasEnds kept ids eff (e ∷ edges) acc g h =
    let (source, target) = ordered_ends (eff e.source) (eff e.target) in
    let pk = pair_of source target in
    let slot = or_else (get str_discrete pk acc) (new_agg source target e) in
    elim (Bool-cases (contains str_discrete e.source kept && contains str_discrete e.target kept)) [
      | inr b ↦ rw b (aggregate_edges-HasEnds kept ids eff edges acc g h)
      | inl b ↦
          let old : HasEnds ids slot = elim (Option-cases (get str_discrete pk acc)) [
            | inl n ↦ rw n (
                ordered_ends-HasEnds ids (eff e.source) (eff e.target) e (g e.source (ground arith))
                  (g e.target (ground arith)))
            | inr (s, p) ↦
                rw p
                  (All-Elem (λ x. HasEnds ids x.1) acc (pk, s) h (get-Elem str_discrete pk s acc p))
          ] in
          rw b (
            aggregate_edges-HasEnds kept ids eff edges (put str_discrete pk (add_edge e slot) acc) g
              (All-put str_discrete (λ x. HasEnds ids x.1) pk (add_edge e slot) acc
                (add_edge-HasEnds ids e slot old) h))
    ]
