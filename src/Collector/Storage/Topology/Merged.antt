-- ===== src/Collector/Storage/Topology/Merged.antt =====
-- What the edges of the graph say: the totals of the flows with their hash, and which edges are cut.
use nfm_dashboard.Prelude.{
  ℕ, ◌+◌, max, ◌≤◌, Option, none, some, List, [], ◌∷◌, filter, ite, take, ◌≡◌, ◌⊎◌, inl, inr, refl,
  sym, ap, ◌∙◌, All, All-of_Elem, All-Elem, All-imp, Elem, Elem-take, arith, ltb→le,
}
use nfm_dashboard.Prelude.Text.{Str, str_discrete}
use nfm_dashboard.Prelude.Map.{
  get, get-put, values, fold_at, get-collect, Elem-get, Elem-values, collect-Distinct,
}
use nfm_dashboard.Prelude.Group.{of_key}
use nfm_dashboard.Prelude.Sort.{
  Elem-sort, IsComparator, sort-IsSorted, Elem-sort_of, take-IsSorted_first,
}
use nfm_dashboard.Collector.Types.{
  MetricName, MetricName-discrete, round_trip_time, FlowEdge, TopoEdge,
}
use nfm_dashboard.Collector.Storage.Topology.{
  max_edges, prev_metric, merged_metric, merge_edge, merged_by_hash, heavier, bytes_of,
  build_topology,
}
use nfm_dashboard.Collector.Storage.Topology.Closed.{ranked, merged_by_hash-IsMerged, IsMerged}

abbrev sum_values : List ℕ → ℕ
sum_values [] = 0
sum_values (v ∷ vs) = v + sum_values vs

abbrev max_values : List ℕ → ℕ
max_values [] = 0
max_values (v ∷ vs) = max v (max_values vs)

-- The greatest of the round trip times, the sum of the values of another metric.
abbrev pub summary : MetricName → List ℕ → ℕ
summary m vs = ite (MetricName-discrete m round_trip_time) (max_values vs) (sum_values vs)

-- The values that were observed for a metric.
abbrev pub observed : MetricName → List (FlowEdge ℕ) → List ℕ
observed m [] = []
observed m (e ∷ es) = ite (MetricName-discrete e.metric m) (e.value ∷ observed m es) (observed m es)

-- The edges with a hash.
abbrev pub with_hash : Str → List (FlowEdge ℕ) → List (FlowEdge ℕ)
with_hash k = filter (of_key str_discrete (λ e. e.edge_hash) k)

abbrev known : MetricName → Option TopoEdge → ℕ
known m none = 0
known m (some x) = prev_metric m x.metrics

known-merge_edge :
    (m : MetricName) (o : Option TopoEdge) (e : FlowEdge ℕ)
    → known m (some (merge_edge o e))
      ≡ ite (MetricName-discrete e.metric m) (merged_metric m (known m o) e.value) (known m o)
unfolding merge_edge get
known-merge_edge m none e = ground (
  arith,
  get-put MetricName-discrete e.metric m (merged_metric e.metric (prev_metric e.metric []) e.value)
      [],
)
known-merge_edge m (some x) e = ground (
  arith,
  get-put MetricName-discrete e.metric m
      (merged_metric e.metric (prev_metric e.metric x.metrics) e.value) x.metrics,
)

merged_metric_assoc :
    (m : MetricName) (p v s : ℕ)
    → merged_metric m (merged_metric m p v) s ≡ merged_metric m p (merged_metric m v s)
merged_metric_assoc m p v s = ground arith

summary-observed :
    (m : MetricName) (e : FlowEdge ℕ) (es : List (FlowEdge ℕ))
    → summary m (observed m (e ∷ es))
      ≡ ite
          (MetricName-discrete e.metric m)
          (merged_metric m e.value (summary m (observed m es)))
          (summary m (observed m es))
summary-observed m e es = ground arith

merged_metric-ite :
    (m : MetricName) (p v s : ℕ) {X : Type 0} (d : Dec X)
    → merged_metric m (ite d (merged_metric m p v) p) s
      ≡ merged_metric m p (ite d (merged_metric m v s) s)
merged_metric-ite m p v s (yes x) = merged_metric_assoc m p v s
merged_metric-ite m p v s (no x) = refl

merged-step :
    (m : MetricName) (o : Option TopoEdge) (e : FlowEdge ℕ) (es : List (FlowEdge ℕ))
    → merged_metric m (known m (some (merge_edge o e))) (summary m (observed m es))
      ≡ merged_metric m (known m o) (summary m (observed m (e ∷ es)))
merged-step m o e es =
    ap (λ p. merged_metric m p (summary m (observed m es))) (known-merge_edge m o e)
    ∙ merged_metric-ite m (known m o) e.value (summary m (observed m es))
        (MetricName-discrete e.metric m)
    ∙ ap (merged_metric m (known m o)) (sym (summary-observed m e es))

with_hash-cons :
    (k : Str) (e : FlowEdge ℕ) (es : List (FlowEdge ℕ))
    → with_hash k (e ∷ es) ≡ ite (str_discrete e.edge_hash k) (e ∷ with_hash k es) (with_hash k es)
with_hash-cons k e es = ground arith

module _ (k : Str) (m : MetricName) where
  folded : List (FlowEdge ℕ) → Option TopoEdge → ℕ
  folded es o = known m (fold_at str_discrete (λ e. e.edge_hash) merge_edge k es o)

  summed : List (FlowEdge ℕ) → Option TopoEdge → ℕ
  summed es o = merged_metric m (known m o) (summary m (observed m es))

  folded-ite :
      {X : Type 0} (d : Dec X) (e : FlowEdge ℕ) (es : List (FlowEdge ℕ)) (o : Option TopoEdge)
      → ((p : Option TopoEdge) → folded es p ≡ summed (with_hash k es) p)
      → folded es (ite d (some (merge_edge o e)) o)
        ≡ summed (ite d (e ∷ with_hash k es) (with_hash k es)) o
  unfolding summed
  folded-ite (yes x) e es o ih = ih (some (merge_edge o e)) ∙ merged-step m o e (with_hash k es)
  folded-ite (no x) e es o ih = ih o

  known-fold_at :
      (es : List (FlowEdge ℕ)) (o : Option TopoEdge) → folded es o ≡ summed (with_hash k es) o
  unfolding folded summed fold_at
  known-fold_at [] o = ground arith
  known-fold_at (e ∷ es) o =
      folded-ite (str_discrete e.edge_hash k) e es o (known-fold_at es)
      ∙ ap (λ xs. summed xs o) (sym (with_hash-cons k e es))

merged_zero : (m : MetricName) (s : ℕ) → merged_metric m 0 s ≡ s
merged_zero m s = ground arith

-- An edge of the graph has, for each metric, the sum of the values of the flow edges with its hash,
-- or the greatest of them for the round trip time.
pub build_topology_totals :
    (es : List (FlowEdge ℕ)) (clusters : List (Str × Str)) (now : Str) (m : MetricName)
    → All
        (λ x. prev_metric m x.metrics ≡ summary m (observed m (with_hash x.id es)))
        (build_topology es clusters now).edges
unfolding build_topology get folded summed
build_topology_totals es clusters now m = All-of_Elem _ (take max_edges (ranked es)) (λ x i.
    let (k, j) =
      Elem-values (merged_by_hash es) x (Elem-sort heavier _ x (Elem-take max_edges _ x i)) in
    let same = (All-Elem (IsMerged es) _ (k, x) (merged_by_hash-IsMerged es) j).0 in
    let found =
      sym (
        Elem-get str_discrete k x _
          (collect-Distinct str_discrete (λ e. e.edge_hash) merge_edge es [] tt) j)
      ∙ get-collect str_discrete (λ e. e.edge_hash) merge_edge k es [] in
    rw same (
      ap (known m) found
      ∙ known-fold_at k m es none
      ∙ merged_zero m (summary m (observed m (with_hash k es)))))

heavier-IsComparator : IsComparator heavier
unfolding heavier
heavier-IsComparator = record { asymm = λ x y h. ground arith; trans = λ x y z h k. ground arith }

-- A merged edge that is not among those of the graph has no more bytes than any of them.
pub build_topology_heaviest :
    (es : List (FlowEdge ℕ)) (clusters : List (Str × Str)) (now : Str)
    → All
        (λ y.
          Elem y (build_topology es clusters now).edges
          ⊎ All (λ x. bytes_of y ≤ bytes_of x) (build_topology es clusters now).edges)
        (values (merged_by_hash es))
unfolding build_topology heavier
build_topology_heaviest es clusters now = All-of_Elem _ (values (merged_by_hash es)) (λ y m.
    elim (take-IsSorted_first heavier max_edges (ranked es) y
      (sort-IsSorted heavier heavier-IsComparator (values (merged_by_hash es)))
      (Elem-sort_of heavier _ y m)) [
        | inl i ↦ inl i
        | inr k ↦ inr (All-imp _ _ _ (λ x. ltb→le (bytes_of x) (bytes_of y)) k)
      ])
