-- ===== src/Dashboard/TopologyGraph/Rendered.antt =====
-- Which nodes and links of the graph are drawn.
use nfm_dashboard.Prelude.{
  ◌-◌, List, [], ◌∷◌, map, filter, length, Bool, true, false, not, ◌&&◌, ltb, ◌≡◌, ◌⊎◌, inl, inr,
  refl, ap, ◌∙◌, All, All-of_Elem, All-Elem, Elem, Elem-filter, Elem-filter_of, Elem-map,
  Elem-map_of, arith, Bool-cases,
}
use nfm_dashboard.Prelude.Text.{Str, str_discrete}
use nfm_dashboard.Prelude.Set.{
  add, contains→Elem, Elem→contains, contains_of_not-Elem, Elem-add, Elem-add_of,
}
use nfm_dashboard.Prelude.Ratio.{Ratio, whole, ratio_lt}
use nfm_dashboard.Collector.Types.{TopoNode}
use nfm_dashboard.Dashboard.Snapshot.{Edge, Topology, same_text}
use nfm_dashboard.Dashboard.TopologyGraph.{
  GraphOpts, GraphNode, GraphLink, has, pipeline_of, self_loops, link_of, all_links, shown_links,
  ends_of_links, ends_set, add_looped, orphaned_ids, drawing, draw_node, build_graph_model, Drawing,
}

abbrev pub IsEnd : Str → GraphLink → Type 0
IsEnd k l = (k ≡ l.source) ⊎ (k ≡ l.target)

-- The nodes and the links before the cut.
abbrev pub kept_ids : GraphOpts → Topology → List Str
kept_ids opts topo = map (λ n. n.id) (pipeline_of opts topo).nodes

abbrev pub links_before : GraphOpts → Topology → List GraphLink
links_before opts topo = all_links opts (kept_ids opts topo) (pipeline_of opts topo).edges

all_links-kept :
    (opts : GraphOpts) (kept : List Str) (edges : List Edge)
    → All (λ l. Elem l.source kept × Elem l.target kept) (all_links opts kept edges)
unfolding all_links link_of
all_links-kept opts kept [] = tt
all_links-kept opts kept (e ∷ edges) =
    let rest = all_links-kept opts kept edges in
    elim (Bool-cases (same_text e.source e.target)) [
      | inl b ↦ rw b rest
      | inr b ↦ elim (Bool-cases (has kept e.source && has kept e.target)) [
        | inr c ↦ rw (b, c) rest
        | inl c ↦
            rw (b, c)
              (
                (
                  contains→Elem str_discrete e.source kept (ground arith),
                  contains→Elem str_discrete e.target kept (ground arith),
                ),
                rest,
              )
      ]
    ]

Elem-shown_links :
    (opts : GraphOpts) (links : List GraphLink) (l : GraphLink)
    → Elem l (shown_links opts links)
    → Elem l links
unfolding shown_links
Elem-shown_links opts links l m = elim (Bool-cases (ratio_lt (whole 0) opts.min_edge_value)) [
  | inl b ↦ (Elem-filter _ links l (rw b at m)).0
  | inr b ↦ rw b at m
]

Elem-ends_of_links :
    (p : GraphLink → Bool) (links : List GraphLink) (acc : List Str) (k : Str)
    → Elem k (ends_of_links p links acc)
    → Elem k acc ⊎ ((l : GraphLink) × Elem l links × IsEnd k l)
unfolding ends_of_links
Elem-ends_of_links p [] acc k m = inl m
Elem-ends_of_links p (l ∷ links) acc k m = elim (Elem-ends_of_links p links _ k m) [
  | inr (x, i, e) ↦ inr (x, inr i, e)
  | inl i ↦ elim (Bool-cases (p l)) [
    | inr b ↦ inl (rw b at i)
    | inl b ↦ elim (Elem-add str_discrete (add str_discrete acc l.source) l.target k (rw b at i)) [
      | inl e ↦ inr (l, inl refl, inr e)
      | inr j ↦ elim (Elem-add str_discrete acc l.source k j) [
        | inl e ↦ inr (l, inl refl, inl e)
        | inr n ↦ inl n
      ]
    ]
  ]
]

Elem-ends_set_of :
    (links : List GraphLink) (acc : List Str) (k : Str)
    → Elem k acc ⊎ ((l : GraphLink) × Elem l links × IsEnd k l)
    → Elem k (ends_of_links (λ _. true) links acc)
unfolding ends_of_links
Elem-ends_set_of [] acc k (inl m) = m
Elem-ends_set_of [] acc k (inr (l, i, e)) = absurd i
Elem-ends_set_of (l ∷ links) acc k h =
    let both = add str_discrete acc l.source in
    Elem-ends_set_of links _ k (elim h [
      | inl m ↦ inl (
          Elem-add_of str_discrete both l.target k
            (inr (Elem-add_of str_discrete acc l.source k (inr m))))
      | inr (x, inr i, e) ↦ inr (x, i, e)
      | inr (x, inl p, inl e) ↦ inl (
          Elem-add_of str_discrete both l.target k (
            inr (
              Elem-add_of str_discrete acc l.source k
                (inl (e ∙ ap (λ (y : GraphLink). y.source) p)))))
      | inr (x, inl p, inr e) ↦
          inl (
            Elem-add_of str_discrete both l.target k (inl (e ∙ ap (λ (y : GraphLink). y.target) p)))
    ])

Elem-add_looped_of :
    (loops : List (Str × Ratio)) (acc : List Str) (k : Str)
    → Elem k acc
    → Elem k (add_looped loops acc)
unfolding add_looped
Elem-add_looped_of [] acc k m = m
Elem-add_looped_of ((id, v) ∷ loops) acc k m =
    Elem-add_looped_of loops _ k (elim (Bool-cases (ratio_lt (whole 0) v)) [
      | inl b ↦ rw b (Elem-add_of str_discrete acc id k (inr m))
      | inr b ↦ rw b m
    ])

-- An orphan is an end of a link before the cut, and of none after it.
orphaned_ids-cut :
    (before links : List GraphLink) (loops : List (Str × Ratio)) (k : Str)
    → Elem k (orphaned_ids before links loops)
    → ((l : GraphLink) × Elem l before × IsEnd k l) × All (λ l. ¬ IsEnd k l) links
unfolding orphaned_ids
orphaned_ids-cut before links loops k m = elim (Bool-cases (ltb 0 (length before - length links))) [
  | inr b ↦ absurd (rw b at m)
  | inl b ↦
      let after = add_looped loops (ends_set links) in
      let (i, p) = Elem-filter _ (ends_set before) k (rw b at m) in
      (
        elim (Elem-ends_of_links (λ _. true) before [] k i) [ inl j ↦ absurd j | inr j ↦ j ],
        All-of_Elem _ links (λ l j e.
            let inside = Elem→contains str_discrete k after (
              Elem-add_looped_of loops (ends_set links) k
                (Elem-ends_set_of links [] k (inr (l, j, e)))) in
            ground arith),
      )
]

-- The nodes that are drawn are those kept that are not orphans.
Elem-drawn :
    (d : Drawing) (orphans : List Str) (nodes : List TopoNode) (k : Str)
    → Elem k (map (λ n. n.id) nodes)
    → has orphans k ≡ false
    → Elem k (map (λ n. n.id) (map (draw_node d) (filter (λ n. not (has orphans n.id)) nodes)))
unfolding draw_node
Elem-drawn d orphans nodes k m o =
    let (n, i, p) = Elem-map (λ (n : TopoNode). n.id) nodes k m in
    let rendered = filter (λ n. not (has orphans n.id)) nodes in
    let drawn : Elem n rendered = Elem-filter_of _ nodes n i (ground arith) in
    rw p (
      Elem-map_of (λ (n : GraphNode). n.id) (map (draw_node d) rendered) (draw_node d n)
        (Elem-map_of (draw_node d) rendered n drawn))

-- Every link that is drawn has both its ends among the nodes that are drawn; and a node that is kept
-- is drawn, or it is an end of a link, and of none that is drawn.
pub build_graph_model_closed :
    (opts : GraphOpts) (topo : Topology)
    → let m = build_graph_model opts topo in
      let ids = map (λ n. n.id) m.nodes in
      All (λ l. Elem l.source ids × Elem l.target ids) m.links
      × All
          (λ k.
            Elem k ids
            ⊎ (((l : GraphLink) × Elem l (links_before opts topo) × IsEnd k l)
                × All (λ l. ¬ IsEnd k l) m.links))
          (kept_ids opts topo)
unfolding build_graph_model
build_graph_model_closed opts topo =
    let kept = kept_ids opts topo in
    let before = links_before opts topo in
    let links = shown_links opts before in
    let loops = self_loops opts.metric kept (pipeline_of opts topo).edges [] in
    let orphans = orphaned_ids before links loops in
    let pipeline = pipeline_of opts topo in
    let rendered = filter (λ n. not (has orphans n.id)) pipeline.nodes in
    let d = drawing opts pipeline loops links rendered in
    let linked : (l : GraphLink) (k : Str) → Elem l links → IsEnd k l → has orphans k ≡ false =
      λ l k i e. contains_of_not-Elem str_discrete k orphans (λ m.
        All-Elem (λ l. ¬ IsEnd k l) links l (orphaned_ids-cut before links loops k m).1 i e) in
    (
      All-of_Elem _ links (λ l i.
          let (s, t) =
            All-Elem (λ l. Elem l.source kept × Elem l.target kept) before l
              (all_links-kept opts kept (pipeline_of opts topo).edges)
              (Elem-shown_links opts before l i) in
          (
            Elem-drawn d orphans pipeline.nodes l.source s (linked l l.source i (inl refl)),
            Elem-drawn d orphans pipeline.nodes l.target t (linked l l.target i (inr refl)),
          )),
      All-of_Elem _ kept (λ k i. elim (Bool-cases (has orphans k)) [
        | inr o ↦ inl (Elem-drawn d orphans pipeline.nodes k i o)
        | inl o ↦
            inr (orphaned_ids-cut before links loops k (contains→Elem str_discrete k orphans o))
      ]),
    )
