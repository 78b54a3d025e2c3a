-- ===== src/Dashboard/Tiers/Resolved.antt =====
-- Every link of the tiers is resolved to an edge of the topology.
use nfm_dashboard.Prelude.{
  Option, none, some, List, [], ◌∷◌, false, ◌&&◌, ◌≡◌, ◌⊎◌, inl, inr, refl, All, All-of_Elem,
  All-Elem, Elem, Elem-filter, Elem-filter_of, filter, ◌<◌, arith, Bool-cases, Option-cases,
}
use nfm_dashboard.Prelude.Text.{Str, str_discrete}
use nfm_dashboard.Prelude.Map.{get, values, get-Elem, Elem-values, All-put}
use nfm_dashboard.Prelude.Ratio.{ratio_le_refl, ratio_le_trans, ratio_lt_le}
use nfm_dashboard.Collector.Types.{MetricName}
use nfm_dashboard.Dashboard.Snapshot.{Edge, Topology, metric_value, same_text}
use nfm_dashboard.Dashboard.Tiers.{
  TierLevel, TierLink, arrow, next_link, add_tier_link, tier_links, entity_in, build_tiers,
  heavier_on, better_edge, resolve_from, resolve_edge,
}

-- The edges from one entity to another.
abbrev pub matching : (Str → Str) → Str → Str → List Edge → List Edge
matching entity s t = filter (λ e. same_text (entity e.source) s && same_text (entity e.target) t)

abbrev pub HasNumber : MetricName → Edge → Type 0
HasNumber metric e = 0 < (metric_value metric e.metrics).den

-- What the search has found: nothing where there is no edge, or one that none is heavier than.
abbrev pub IsHeaviest : MetricName → List Edge → Option Edge → Type 0
IsHeaviest metric edges none = edges ≡ []
IsHeaviest metric edges (some best) =
    Elem best edges × All (λ e. heavier_on metric e best ≡ false) edges

abbrev best_of : MetricName → List Edge → Option Edge → Option Edge
best_of metric [] best = best
best_of metric (e ∷ edges) best = best_of metric edges (some (better_edge metric best e))

resolve_from-matching :
    (entity : Str → Str) (s t : Str) (metric : MetricName) (edges : List Edge) (best : Option Edge)
    → resolve_from entity s t metric edges best ≡ best_of metric (matching entity s t edges) best
unfolding resolve_from
resolve_from-matching entity s t metric [] best = refl
resolve_from-matching entity s t metric (e ∷ edges) best =
    let test = same_text (entity e.source) s && same_text (entity e.target) t in
    elim (Bool-cases test) [
      | inl b ↦
          rw b (resolve_from-matching entity s t metric edges (some (better_edge metric best e)))
      | inr b ↦ rw b (resolve_from-matching entity s t metric edges best)
    ]

module _ (metric : MetricName) where
  record IsBest (b : Edge) (es : List Edge) (r : Edge) : Type 0 where
    found : (r ≡ b) ⊎ Elem r es
    least : heavier_on metric b r ≡ false
    rest : All (λ e. heavier_on metric e r ≡ false) es
    number : HasNumber metric r

  best_of-IsBest :
      (es : List Edge) (b : Edge)
      → HasNumber metric b
      → All (HasNumber metric) es
      → (r : Edge) × (best_of metric es (some b) ≡ some r) × IsBest b es r
  best_of-IsBest [] b pos all =
      (b, refl, record { found = inl refl; least = ratio_le_refl _; rest = tt; number = pos })
  best_of-IsBest (e ∷ es) b pos (here, all) = elim (Bool-cases (heavier_on metric e b)) [
    | inl h ↦
        let (r, p, i) = best_of-IsBest es e here all in
        (
          r,
          rw h p,
          record {
            found = inr (elim i.found [ inl q ↦ inl q | inr m ↦ inr m ]);
            least = ratio_le_trans _ _ _ here (ratio_lt_le _ _ h) i.least;
            rest = (i.least, i.rest);
            number = i.number;
          },
        )
    | inr h ↦
        let (r, p, i) = best_of-IsBest es b pos all in
        (
          r,
          rw h p,
          record {
            found = elim i.found [ inl q ↦ inl q | inr m ↦ inr (inr m) ];
            least = i.least;
            rest = (ratio_le_trans _ _ _ pos h i.least, i.rest);
            number = i.number;
          },
        )
  ]

  best_of-IsHeaviest :
      (es : List Edge) → All (HasNumber metric) es → IsHeaviest metric es (best_of metric es none)
  best_of-IsHeaviest [] all = refl
  best_of-IsHeaviest (e ∷ es) (here, all) =
      let (r, p, i) = best_of-IsBest es e here all in
      rw p (elim i.found [ inl q ↦ inl q | inr m ↦ inr m ], (i.least, i.rest))

matching-HasNumber :
    (metric : MetricName) (entity : Str → Str) (s t : Str) (edges : List Edge)
    → All (HasNumber metric) edges
    → All (HasNumber metric) (matching entity s t edges)
matching-HasNumber metric entity s t edges all =
    All-of_Elem _ (matching entity s t edges)
      (λ e m. All-Elem (HasNumber metric) edges e all (Elem-filter _ edges e m).0)

abbrev HasMatch : (Str → Str) → List Edge → TierLink → Type 0
HasMatch entity all l = (e : Edge) × Elem e (matching entity l.source l.target all)

next_link-matching :
    (entity : Str → Str) (e : Edge) (all : List Edge) (links : List (Str × TierLink))
    → Elem e all
    → All (λ x. HasMatch entity all x.1) links
    → let s = entity e.source in
      let t = entity e.target in
      HasMatch entity all (next_link (get str_discrete (arrow s t) links) s t e)
next_link-matching entity e all links m k =
    let s = entity e.source in
    let t = entity e.target in
    elim (Option-cases (get str_discrete (arrow s t) links)) [
      | inl n ↦ rw n (e, Elem-filter_of _ all e m (ground arith))
      | inr (prev, p) ↦ rw p (
          All-Elem (λ x. HasMatch entity all x.1) links (arrow s t, prev) k
            (get-Elem str_discrete (arrow s t) prev links p))
    ]

-- Every link that was made has an edge between its two entities.
tier_links-matching :
    (entity : Str → Str) (edges all : List Edge) (links : List (Str × TierLink))
    → ((e : Edge) → Elem e edges → Elem e all)
    → All (λ x. HasMatch entity all x.1) links
    → All (λ x. HasMatch entity all x.1) (tier_links entity edges links)
unfolding tier_links add_tier_link
tier_links-matching entity [] all links h k = k
tier_links-matching entity (e ∷ edges) all links h k =
    let s = entity e.source in
    let t = entity e.target in
    elim (Bool-cases (same_text s t)) [
      | inl b ↦ rw b (tier_links-matching entity edges all links (λ f i. h f (inr i)) k)
      | inr b ↦ rw b (
          tier_links-matching entity edges all _ (λ f i. h f (inr i))
            (All-put str_discrete (λ x. HasMatch entity all x.1) (arrow s t)
              (next_link (get str_discrete (arrow s t) links) s t e) links
              (next_link-matching entity e all links (h e (inl refl)) k) k))
    ]

search-IsHeaviest :
    (topo : Topology) (level : TierLevel) (metric : MetricName)
    → All (HasNumber metric) topo.edges
    → (s t : Str)
    → IsHeaviest metric
        (matching (entity_in topo level) s t topo.edges)
        (resolve_edge topo level s t metric)
unfolding resolve_edge
search-IsHeaviest topo level metric all s t =
    let entity = entity_in topo level in
    rw (resolve_from-matching entity s t metric topo.edges none) (
      best_of-IsHeaviest metric (matching entity s t topo.edges)
        (matching-HasNumber metric entity s t topo.edges all))

found_of :
    (metric : MetricName) (es : List Edge) (e : Edge) (o : Option Edge)
    → Elem e es
    → IsHeaviest metric es o
    → (r : Edge) × (o ≡ some r)
found_of metric [] e o m h = absurd m
found_of metric (x ∷ es) e none m h = cc
found_of metric (x ∷ es) e (some r) m h = (r, refl)

-- Where the edges have the metric as a number, the search between two entities finds nothing exactly
-- where no edge goes from the one to the other, and else an edge that none of those is heavier than;
-- and for every link of the tiers it finds one.
pub resolve_edge-IsHeaviest :
    (topo : Topology) (level : TierLevel) (metric : MetricName)
    → All (HasNumber metric) topo.edges
    → (s t : Str)
    → IsHeaviest metric
        (matching (entity_in topo level) s t topo.edges)
        (resolve_edge topo level s t metric)
      × All
          (λ l. (e : Edge) × (resolve_edge topo level l.source l.target metric ≡ some e))
          (build_tiers topo level).1
unfolding resolve_edge build_tiers
resolve_edge-IsHeaviest topo level metric all s t =
    let entity = entity_in topo level in
    let links = tier_links entity topo.edges [] in
    let heaviest = λ (s t : Str). search-IsHeaviest topo level metric all s t in
    (
      heaviest s t,
      All-of_Elem _ (values links) (λ l m.
          let (k, i) = Elem-values links l m in
          let (e, j) =
            All-Elem (λ x. HasMatch entity topo.edges x.1) links (k, l)
              (tier_links-matching entity topo.edges topo.edges [] (λ e i. i) tt) i in
          found_of metric (matching entity l.source l.target topo.edges) e _ j
            (heaviest l.source l.target)),
    )
