-- ===== src/Collector/Storage/Items/Keys.antt =====
-- The keys of the rows: no two rows of a cycle have the same, and rolled-up rows are in no index.
use mathlib.Core.List.{append_assoc}
use mathlib.Core.Path.{subst, ap₂}
use nfm_dashboard.Prelude.{
  ℕ, Option, none, some, List, [], ◌∷◌, ◌++◌, map, not, or_else, Bool, true, ◌&&◌, ◌==◌, ◌≡◌, ◌≢◌,
  refl, sym, ap, ◌∙◌, All, All-of_Elem, All-Elem, Elem, Elem-map, Elem-map_of, Distinct,
  if◌then◌else◌, arith,
}
use nfm_dashboard.Prelude.Text.{Str, codes, str_discrete, truthy}
use nfm_dashboard.Prelude.Map.{get, put, get-put}
use nfm_dashboard.Prelude.Set.{contains, Elem→contains}
use nfm_dashboard.Collector.Types.{
  FlowEdge, EndpointInfo, MetricName, DestCategory, metric_text, category_text,
}
use nfm_dashboard.Collector.Normalize.{dedupe_key, dedupe_edges}
use nfm_dashboard.Collector.Normalize.Dedupe.{dedupe_edges_best}
use nfm_dashboard.Collector.Storage.Items.{
  pod_index, edge_index, sort_key, flow_item, remove_all, index_attributes, hflow_item, attribute,
  primary_key,
}

-- Without the separator, whose code is 35.
unfoldable pub plain : Str → Bool
plain [] = true
plain (c ∷ s) = not (c == 35) && plain s

split-hash :
    (s s' t t' : Str)
    → plain s ≡ true
    → plain s' ≡ true
    → s ++ 35 ∷ t ≡ s' ++ 35 ∷ t'
    → (s ≡ s') × (t ≡ t')
unfolding plain
split-hash [] [] t t' p q e = ground arith
split-hash [] (c ∷ s') t t' p q e = ground arith
split-hash (c ∷ s) [] t t' p q e = ground arith
split-hash (c ∷ s) (c' ∷ s') t t' p q e = ground (arith, split-hash s s' t t')

plain-metric_text : (m : MetricName) → plain (metric_text m) ≡ true
unfolding plain metric_text
plain-metric_text m = ground arith

plain-category_text : (c : DestCategory) → plain (category_text c) ≡ true
unfolding plain category_text
plain-category_text c = ground arith

get-pod_index :
    (ep : EndpointInfo) (bucket pk sk k : Str) (m : List (Str × Str))
    → pk ≢ k
    → sk ≢ k
    → get str_discrete k (pod_index ep bucket pk sk m) ≡ get str_discrete k m
unfolding pod_index
get-pod_index ep bucket pk sk k m n o = ground (
  arith,
  get-put str_discrete pk k
      (codes "POD#"
        ++ or_else ep.pod_namespace (codes "_")
        ++ codes "/"
        ++ or_else (truthy ep.pod_name) [])
      m,
  get-put str_discrete sk k bucket (
      put str_discrete pk
        (codes "POD#"
          ++ or_else ep.pod_namespace (codes "_")
          ++ codes "/"
          ++ or_else (truthy ep.pod_name) [])
        m),
)

-- Two texts joined by the separator, and three.
two_parts :
    (b b' m m' : Str)
    → plain b ≡ true
    → plain b' ≡ true
    → b ++ codes "#" ++ m ≡ b' ++ codes "#" ++ m'
    → (b ≡ b') × (m ≡ m')
two_parts b b' m m' p q e =
    split-hash b b' m m' p q (sym (append_assoc b _ m) ∙ e ∙ append_assoc b' _ m')

join_three : (a b c : Str) → a ++ codes "#" ++ b ++ codes "#" ++ c ≡ a ++ 35 ∷ (b ++ 35 ∷ c)
join_three [] b c = ap (◌∷◌ 35) (append_assoc b _ c)
join_three (x ∷ a) b c = ap (◌∷◌ x) (join_three a b c)

three_parts :
    (a a' b b' c c' : Str)
    → plain a ≡ true
    → plain a' ≡ true
    → plain b ≡ true
    → plain b' ≡ true
    → a ++ codes "#" ++ b ++ codes "#" ++ c ≡ a' ++ codes "#" ++ b' ++ codes "#" ++ c'
    → (a ≡ a') × (b ≡ b') × (c ≡ c')
three_parts a a' b b' c c' p p' q q' e =
    let (first, rest) =
      split-hash a a' _ _ p p' (sym (join_three a b c) ∙ e ∙ join_three a' b' c') in
    let (second, third) = split-hash b b' c c' q q' rest in (first, second, third)

flow_prefix : (x x' : Str) → codes "FLOW#" ++ x ≡ codes "FLOW#" ++ x' → x ≡ x'
flow_prefix x x' h = cc

module _ {N : Type 0} where
  get-flow_item :
      (e : FlowEdge N) (ttl : ℕ) (k : Str)
      → codes "gsi1pk" ≢ k
      → codes "gsi1sk" ≢ k
      → codes "gsi2pk" ≢ k
      → codes "gsi2sk" ≢ k
      → attribute k (flow_item e ttl) ≡ get str_discrete k (edge_index e)
  unfolding flow_item
  get-flow_item e ttl k n1 n2 n3 n4 =
      get-pod_index e.b e.bucket _ _ k _ n3 n4 ∙ get-pod_index e.a e.bucket _ _ k _ n1 n2

  abbrev primary_key_of : FlowEdge N → Option Str × Option Str
  primary_key_of e = (some (codes "FLOW#" ++ e.bucket ++ codes "#" ++ e.monitor), some (sort_key e))

  primary_key-flow_item :
      (e : FlowEdge N) (ttl : ℕ) → primary_key (flow_item e ttl) ≡ primary_key_of e
  unfolding get put str_discrete
  primary_key-flow_item e ttl =
      rw
        (
          get-flow_item e ttl (codes "pk") (ground arith) (ground arith) (ground arith)
              (ground arith),
          get-flow_item e ttl (codes "sk") (ground arith) (ground arith) (ground arith)
              (ground arith),
        )
        refl

  parts_of_sort_key :
      (e f : FlowEdge N)
      → sort_key e ≡ sort_key f
      → (metric_text e.metric ≡ metric_text f.metric)
        × (category_text e.category ≡ category_text f.category)
        × (e.edge_hash ≡ f.edge_hash)
  parts_of_sort_key e f h =
      three_parts (metric_text e.metric) (metric_text f.metric) (category_text e.category)
        (category_text f.category) _ _ (plain-metric_text e.metric) (plain-metric_text f.metric)
        (plain-category_text e.category) (plain-category_text f.category) h

  dedupe_key_of_primary_key :
      (e f : FlowEdge N) (ttl : ℕ)
      → plain e.bucket ≡ true
      → plain f.bucket ≡ true
      → primary_key (flow_item e ttl) ≡ primary_key (flow_item f ttl)
      → dedupe_key e ≡ dedupe_key f
  unfolding dedupe_key
  dedupe_key_of_primary_key e f ttl p q h =
      let same : primary_key_of e ≡ primary_key_of f =
        sym (primary_key-flow_item e ttl) ∙ h ∙ primary_key-flow_item f ttl in
      let pk : codes "FLOW#" ++ e.bucket ++ codes "#" ++ e.monitor
          ≡ codes "FLOW#" ++ f.bucket ++ codes "#" ++ f.monitor =
        ground arith in
      let sk : sort_key e ≡ sort_key f = ground arith in
      let (bucket, monitor) =
        two_parts e.bucket f.bucket e.monitor f.monitor p q (flow_prefix _ _ pk) in
      let (metric, category, hash) = parts_of_sort_key e f sk in
      rw (bucket, monitor, metric, category, hash) refl

  -- The rows of edges with different keys have different keys.
  Distinct-flow_items :
      (es : List (FlowEdge N)) (ttl : ℕ)
      → All (λ e. plain e.bucket ≡ true) es
      → Distinct (map dedupe_key es)
      → Distinct (map (λ e. primary_key (flow_item e ttl)) es)
  Distinct-flow_items [] ttl h d = tt
  Distinct-flow_items (e ∷ es) ttl (p, h) (n, d) = (
    λ m.
        let (f, i, same) = Elem-map (λ e. primary_key (flow_item e ttl)) es _ m in
        let q = All-Elem (λ e. plain e.bucket ≡ true) es f h i in
        n (
          subst (λ k. Elem k (map dedupe_key es)) (sym (dedupe_key_of_primary_key e f ttl p q same))
            (Elem-map_of dedupe_key es f i)),
    Distinct-flow_items es ttl h d,
  )

-- Where no bucket has a `#` in it, the rows that a cycle writes have different primary keys.
pub dedupe_edges-flow_items :
    (es : List (FlowEdge ℕ)) (ttl : ℕ)
    → All (λ e. plain e.bucket ≡ true) es
    → Distinct (map (λ e. primary_key (flow_item e ttl)) (dedupe_edges es))
dedupe_edges-flow_items es ttl h =
    let (distinct, given, best) = dedupe_edges_best es in
    Distinct-flow_items (dedupe_edges es) ttl
      (All-of_Elem _ (dedupe_edges es) (λ e m.
        All-Elem (λ e. plain e.bucket ≡ true) es e h
          (All-Elem (λ r. Elem r es) (dedupe_edges es) e given m)))
      distinct

get-remove_all :
    (ks : List Str) (k : Str) (m : List (Str × Str))
    → get str_discrete k (remove_all ks m)
      ≡ (if contains str_discrete k ks then none else get str_discrete k m)
unfolding remove_all get
get-remove_all ks k [] = ground arith
get-remove_all ks k (x ∷ m) = ground (arith, get-remove_all ks k m)

abbrev if_contains : List Str → Str → Option Str → Option Str
if_contains ks k o = if contains str_discrete k ks then none else o

-- Whatever attributes the edge carries from the row that it was read from, its hourly row has none
-- of the index attributes, and the key of its hour.
pub hflow_item_unindexed :
    {N : Type 0} (carried : List (Str × Str)) (e : FlowEdge N) (ttl : ℕ)
    → All (λ k. attribute k (hflow_item carried e ttl) ≡ none) index_attributes
      × (primary_key (hflow_item carried e ttl)
          ≡ (some (codes "HFLOW#" ++ e.bucket ++ codes "#" ++ e.monitor), some (sort_key e)))
unfolding hflow_item contains str_discrete
hflow_item_unindexed carried e ttl =
    let pk = codes "HFLOW#" ++ e.bucket ++ codes "#" ++ e.monitor in
    let m' = put str_discrete (codes "pk") pk carried in
    let m = put str_discrete (codes "sk") (sort_key e) m' in
    let left : (k : Str)
        → get str_discrete k (remove_all index_attributes m)
          ≡ if_contains index_attributes k (get str_discrete k m) =
      λ k. get-remove_all index_attributes k m in
    (
      All-of_Elem _ index_attributes (λ k i.
          left k
          ∙ ap (λ b. if b then none else get str_discrete k m)
              (Elem→contains str_discrete k index_attributes i)),
      ap₂ (λ a b. (a, b))
          (left (codes "pk")
            ∙ get-put str_discrete (codes "sk") (codes "pk") (sort_key e) m'
            ∙ get-put str_discrete (codes "pk") (codes "pk") pk carried)
          (left (codes "sk") ∙ get-put str_discrete (codes "sk") (codes "sk") (sort_key e) m'),
    )
