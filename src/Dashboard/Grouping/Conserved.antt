-- ===== src/Dashboard/Grouping/Conserved.antt =====
-- Grouping neither loses nor invents traffic.
use nfm_dashboard.Prelude.{
  ℕ, ◌+◌, Option, none, some, List, [], ◌∷◌, map, filter, ◌&&◌, or_else, ◌≡◌, inl, inr, refl, sym,
  ap, ◌∙◌, All, All-of_Elem, All-Elem, Elem, Elem-map, arith, Bool-cases, Option-cases,
}
use nfm_dashboard.Prelude.Text.{Str, str_discrete}
use nfm_dashboard.Prelude.Map.{get, put, keys, values, Elem-values}
use nfm_dashboard.Prelude.Set.{contains, contains→Elem}
use nfm_dashboard.Collector.Types.{TopoNode}
use nfm_dashboard.Dashboard.Snapshot.{Edge}
use nfm_dashboard.Dashboard.Grouping.Ends.{
  ids_of, contains-key_by_node, emit_nodes-IsEmitted, aggregate_edges-HasEnds, HasEnds,
}
use nfm_dashboard.Dashboard.Grouping.{
  GroupLevel, key_by_node, member_counts, eff_id_of, emit_nodes, Agg, new_agg, bytes_of_edge,
  add_rtt, heaviest_so_far, add_edge, ordered_ends, pair_of, aggregate_edges, edge_of_agg,
  apply_grouping,
}

-- The sum of a value over a list.
abbrev pub sum_of : {A : Type 0} → (A → ℕ) → List A → ℕ
sum_of w [] = 0
sum_of w (x ∷ xs) = w x + sum_of w xs

-- The edges between two of the nodes.
abbrev pub edges_between : List Str → List Edge → List Edge
edges_between ids =
    filter (λ e. contains str_discrete e.source ids && contains str_discrete e.target ids)

abbrev pub retrans_of : Edge → ℕ
retrans_of e = or_else e.metrics.retransmissions 0

abbrev pub timeouts_of : Edge → ℕ
timeouts_of e = or_else e.metrics.timeouts 0

abbrev weight : {V : Type 0} → (V → ℕ) → Option V → ℕ
weight w none = 0
weight w (some v) = w v

sum_of-put :
    {V : Type 0} (w : V → ℕ) (k : Str) (v : V) (m : List (Str × V))
    → sum_of w (values (put str_discrete k v m)) + weight w (get str_discrete k m)
      ≡ sum_of w (values m) + w v
unfolding put get
sum_of-put w k v [] = omega arith
sum_of-put w k v (e ∷ m) = ground (arith, sum_of-put w k v m)

-- A sum that an edge adds its value to.
module _ (w : Edge → ℕ) (sum : Agg → ℕ) where
  abbrev IsSum : Type 0
  IsSum =
      ((e : Edge) (s : Agg) → sum (add_edge e s) ≡ sum s + w e)
      × ((source target : Str) (e : Edge) → sum (new_agg source target e) ≡ 0)

  sum_of-aggregate_edges :
      IsSum
      → (ids : List Str) (eff : Str → Str) (edges : List Edge) (acc : List (Str × Agg))
      → sum_of sum (values (aggregate_edges ids eff edges acc))
        ≡ sum_of sum (values acc) + sum_of w (edges_between ids edges)
  unfolding aggregate_edges
  sum_of-aggregate_edges h ids eff [] acc = omega arith
  sum_of-aggregate_edges h ids eff (e ∷ edges) acc =
      let (source, target) = ordered_ends (eff e.source) (eff e.target) in
      let pk = pair_of source target in
      let slot = or_else (get str_discrete pk acc) (new_agg source target e) in
      let kept = contains str_discrete e.source ids && contains str_discrete e.target ids in
      let start : sum slot ≡ weight sum (get str_discrete pk acc) =
        elim (Option-cases (get str_discrete pk acc)) [
          | inl n ↦ rw n (h.1 source target e)
          | inr (s, p) ↦ rw p refl
        ] in
      elim (Bool-cases kept) [
        | inl b ↦ rw b (
            sum_of-aggregate_edges h ids eff edges (put str_discrete pk (add_edge e slot) acc)
            ∙ omega (arith, sum_of-put sum pk (add_edge e slot) acc, h.0 e slot, start))
        | inr b ↦ rw b (sum_of-aggregate_edges h ids eff edges acc)
      ]

add_edge-sums :
    (e : Edge) (s : Agg)
    → ((add_edge e s).bytes ≡ s.bytes + bytes_of_edge e)
      × ((add_edge e s).retrans ≡ s.retrans + retrans_of e)
      × ((add_edge e s).timeouts ≡ s.timeouts + timeouts_of e)
      × ((add_edge e s).source ≡ s.source)
      × ((add_edge e s).target ≡ s.target)
unfolding add_edge add_rtt heaviest_so_far
add_edge-sums e s = ground arith

sum_of-map :
    {A B : Type 0} (f : A → B) (w : B → ℕ) (v : A → ℕ)
    → ((a : A) → w (f a) ≡ v a)
    → (xs : List A) → sum_of w (map f xs) ≡ sum_of v xs
sum_of-map f w v h [] = refl
sum_of-map f w v h (x ∷ xs) = omega (arith, h x, sum_of-map f w v h xs)

same_between :
    (by : GroupLevel) (nodes : List TopoNode) (edges : List Edge)
    → edges_between (keys (key_by_node by nodes [])) edges ≡ edges_between (ids_of nodes) edges
same_between by nodes [] = refl
same_between by nodes (e ∷ edges) =
    rw
      (
        contains-key_by_node by nodes e.source,
        contains-key_by_node by nodes e.target,
        same_between by nodes edges,
      )
      refl

summed :
    (w : Edge → ℕ) (sum : Agg → ℕ)
    → IsSum w sum
    → ((a : Agg) → w (edge_of_agg a) ≡ sum a)
    → (by : GroupLevel) (nodes : List TopoNode) (eff : Str → Str) (edges : List Edge)
    → sum_of w
        (map edge_of_agg (values (aggregate_edges (keys (key_by_node by nodes [])) eff edges [])))
      ≡ sum_of w (edges_between (ids_of nodes) edges)
summed w sum h k by nodes eff edges =
    let ids = keys (key_by_node by nodes []) in
    omega (
      arith,
      sum_of-map edge_of_agg w sum k (values (aggregate_edges ids eff edges [])),
      sum_of-aggregate_edges w sum h ids eff edges [],
      ap (sum_of w) (same_between by nodes edges),
    )

-- Over the grouped edges, the bytes, the retransmissions and the timeouts add up to those of the edges
-- between the kept nodes; and both ends of a grouped edge are grouped nodes.
pub apply_grouping_conserves :
    (kept_nodes : List TopoNode) (edges : List Edge) (by : GroupLevel) (expanded : List Str)
    → let r = apply_grouping kept_nodes edges by expanded in
      let ids = ids_of r.nodes in
      let between = edges_between (ids_of kept_nodes) edges in
      (sum_of bytes_of_edge r.edges ≡ sum_of bytes_of_edge between)
      × (sum_of retrans_of r.edges ≡ sum_of retrans_of between)
      × (sum_of timeouts_of r.edges ≡ sum_of timeouts_of between)
      × All (λ e. Elem e.source ids × Elem e.target ids) r.edges
unfolding apply_grouping edge_of_agg
apply_grouping_conserves kept_nodes edges by expanded =
    let node_keys = key_by_node by kept_nodes [] in
    let counts = member_counts by kept_nodes [] in
    let eff = eff_id_of by expanded node_keys in
    let acc = aggregate_edges (keys node_keys) eff edges [] in
    let (_, shown) =
      emit_nodes-IsEmitted by expanded node_keys counts kept_nodes
        (record { nodes = []; emitted = []; meta = [] }) tt in
    let ids =
      ids_of
        (emit_nodes by expanded node_keys counts kept_nodes
          (record { nodes = []; emitted = []; meta = [] })).nodes in
    let ends =
      aggregate_edges-HasEnds (keys node_keys) ids eff edges []
        (λ k c. shown k (
          contains→Elem str_discrete k (ids_of kept_nodes)
            (sym (contains-key_by_node by kept_nodes k) ∙ c)))
        tt in
    (
      summed bytes_of_edge (λ s. s.bytes) (λ e s. (add_edge-sums e s).0, λ _ _ _. refl) (λ a. refl)
          by kept_nodes eff edges,
      summed retrans_of (λ s. s.retrans) (λ e s. (add_edge-sums e s).1, λ _ _ _. refl) (λ a. refl)
          by kept_nodes eff edges,
      summed timeouts_of (λ s. s.timeouts) (λ e s. (add_edge-sums e s).2, λ _ _ _. refl) (λ a. refl)
          by kept_nodes eff edges,
      All-of_Elem _ (map edge_of_agg (values acc)) (λ e m.
          let (s, i, p) = Elem-map edge_of_agg (values acc) e m in
          let (k, j) = Elem-values acc s i in
          rw p (All-Elem (λ x. HasEnds ids x.1) acc (k, s) ends j)),
    )
