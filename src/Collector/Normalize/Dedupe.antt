-- ===== src/Collector/Normalize/Dedupe.antt =====
-- dedupeEdges: of the edges with one key the one with the greatest value stays.
use nfm_dashboard.Prelude.{
  ℕ, ◌≤◌, Option, none, some, List, [], ◌∷◌, map, ◌≡◌, ◌⊎◌, inl, inr, refl, sym, ap, ◌∙◌, ltb,
  All-of_Elem, if◌then◌else◌, Elem, Distinct, All, arith, if_pos, if_neg,
}
use nfm_dashboard.Prelude.Text.{Str, str_discrete}
use nfm_dashboard.Prelude.Map.{
  get, put, values, collect, fold_at, get-collect, collect-Distinct, put_same, get-Elem, Elem-get,
  Elem-values, Elem-values_of, collect_of_IsFresh, values-map, map-values,
}
use nfm_dashboard.Collector.Types.{FlowEdge}
use nfm_dashboard.Collector.Normalize.{dedupe_key, keep_best, best_of, dedupe_edges}

-- What the loop keeps of two edges with one key.
winner : Option (FlowEdge ℕ) → FlowEdge ℕ → FlowEdge ℕ
winner none e = e
winner (some prev) e = if ltb prev.value e.value then e else prev

keep_best-collect :
    (best : List (Str × FlowEdge ℕ)) (e : FlowEdge ℕ)
    → keep_best best e
      ≡ put str_discrete (dedupe_key e) (winner (get str_discrete (dedupe_key e) best) e) best
unfolding keep_best winner
keep_best-collect best e =
    grind (arith, λ (v : FlowEdge ℕ). put_same str_discrete (dedupe_key e) v best)

best_of-collect :
    (edges : List (FlowEdge ℕ)) (best : List (Str × FlowEdge ℕ))
    → best_of edges best ≡ collect str_discrete dedupe_key winner edges best
unfolding best_of collect
best_of-collect [] best = refl
best_of-collect (e ∷ edges) best = rw (keep_best-collect best e) (best_of-collect edges _)

abbrev champion : Str → List (FlowEdge ℕ) → Option (FlowEdge ℕ) → Option (FlowEdge ℕ)
champion = fold_at str_discrete dedupe_key winner

champion_source :
    (k : Str) (es : List (FlowEdge ℕ)) (o : Option (FlowEdge ℕ)) (r : FlowEdge ℕ)
    → champion k es o ≡ some r
    → (o ≡ some r) ⊎ (Elem r es × (dedupe_key r ≡ k))
unfolding fold_at winner
champion_source k [] o r h = inl h
champion_source k (e ∷ es) o r h =
    ground (arith, champion_source k es (some (winner o e)) r, champion_source k es o r)

-- The winner is at least as great as both.
winner-le :
    (o : Option (FlowEdge ℕ)) (d : FlowEdge ℕ)
    → (d.value ≤ (winner o d).value)
      × ((e : FlowEdge ℕ) → o ≡ some e → e.value ≤ (winner o d).value)
unfolding winner
winner-le none d = (omega arith, λ e p. cc)
winner-le (some prev) d = (ground arith, λ e p. ground arith)

abbrev IsDominated : Str → List (FlowEdge ℕ) → Option (FlowEdge ℕ) → FlowEdge ℕ → Type 0
IsDominated k es o e = (r : FlowEdge ℕ) × (champion k es o ≡ some r) × (e.value ≤ r.value)

IsDominated-le :
    (k : Str) (es : List (FlowEdge ℕ)) (o : Option (FlowEdge ℕ)) (d e : FlowEdge ℕ)
    → d.value ≤ e.value
    → IsDominated k es o e
    → IsDominated k es o d
IsDominated-le k es o d e h (r, found, le) = (r, found, omega arith)

champion_dominates :
    (k : Str) (es : List (FlowEdge ℕ)) (o : Option (FlowEdge ℕ)) (e : FlowEdge ℕ)
    → (o ≡ some e) ⊎ (Elem e es × (dedupe_key e ≡ k))
    → IsDominated k es o e
unfolding fold_at
champion_dominates k [] o e (inl h) = (e, h, omega arith)
champion_dominates k [] o e (inr h) = absurd h.0
champion_dominates k (d ∷ es) o e h = elim (str_discrete (dedupe_key d) k) [
  | yes p ↦
      let w = winner o d in
      let later = champion_dominates k es (some w) w (inl refl) in
      rw (if_pos, p)
        (elim h [
          | inl q ↦ IsDominated-le k es (some w) e w ((winner-le o d).1 e q) later
          | inr (inl q, _) ↦ IsDominated-le k es (some w) e w (rw q (winner-le o d).0) later
          | inr (inr m, q) ↦ champion_dominates k es (some w) e (inr (m, q))
        ])
  | no p ↦ rw (if_neg, p) (champion_dominates k es o e (ground arith))
]

-- The entries of the map: under its own key, each the champion of that key.
best-Elem :
    (es : List (FlowEdge ℕ)) (k : Str) (e : FlowEdge ℕ)
    → Elem (k, e) (best_of es [])
    → champion k es none ≡ some e
unfolding get
best-Elem es k e m =
    sym (get-collect str_discrete dedupe_key winner k es [])
    ∙ Elem-get str_discrete k e _ (collect-Distinct str_discrete dedupe_key winner es [] tt)
        (rw (best_of-collect es []) at m)

-- Every edge that is returned is one of the edges given.
dedupe_edges-Elem : (es : List (FlowEdge ℕ)) (e : FlowEdge ℕ) → Elem e (dedupe_edges es) → Elem e es
unfolding dedupe_edges
dedupe_edges-Elem es e m =
    let (k, i) = Elem-values (best_of es []) e m in
    elim (champion_source k es none e (best-Elem es k e i)) [ inl q ↦ cc | inr q ↦ q.0 ]

-- An edge of the list has the same key and at least the same value.
abbrev pub HasBest : FlowEdge ℕ → List (FlowEdge ℕ) → Type 0
HasBest e rs = (r : FlowEdge ℕ) × Elem r rs × (dedupe_key r ≡ dedupe_key e) × (e.value ≤ r.value)

-- Every edge given is matched by one that is returned with the same key and at least its value.
dedupe_edges_dominates :
    (es : List (FlowEdge ℕ)) (e : FlowEdge ℕ)
    → Elem e es
    → (r : FlowEdge ℕ) × Elem r (dedupe_edges es)
      × (dedupe_key r ≡ dedupe_key e)
      × (e.value ≤ r.value)
unfolding dedupe_edges get
dedupe_edges_dominates es e m =
    let k = dedupe_key e in
    let (r, found, le) = champion_dominates k es none e (inr (m, refl)) in
    let held =
      get-Elem str_discrete k r _ (get-collect str_discrete dedupe_key winner k es [] ∙ found) in
    (
      r,
      Elem-values_of _ k r (rw (best_of-collect es []) held),
      elim (champion_source k es none r found) [ inl q ↦ cc | inr q ↦ q.1 ],
      le,
    )

best_keyed :
    (es : List (FlowEdge ℕ)) (x : Str × FlowEdge ℕ) → Elem x (best_of es []) → dedupe_key x.1 ≡ x.0
best_keyed es (k, e) m = elim (champion_source k es none e (best-Elem es k e m)) [
  | inl q ↦ cc
  | inr q ↦ q.1
]

-- No two edges that are returned have the same key.
dedupe_edges-Distinct : (es : List (FlowEdge ℕ)) → Distinct (map dedupe_key (dedupe_edges es))
unfolding dedupe_edges
dedupe_edges-Distinct es =
    rw
      (
        map-values dedupe_key (best_of es []) (All-of_Elem _ _ (best_keyed es)),
        best_of-collect es [],
      )
      (collect-Distinct str_discrete dedupe_key winner es [] tt)

-- The edges that are returned have different keys and are among the edges given; each edge given
-- has one among them with its own key (bucket, monitor, metric, category and hash) whose value is
-- at least as great.
pub dedupe_edges_best :
    (es : List (FlowEdge ℕ))
    → Distinct (map dedupe_key (dedupe_edges es))
      × All (λ r. Elem r es) (dedupe_edges es)
      × All (λ e. HasBest e (dedupe_edges es)) es
dedupe_edges_best es = (
  dedupe_edges-Distinct es,
  All-of_Elem (λ r. Elem r es) (dedupe_edges es) (dedupe_edges-Elem es),
  All-of_Elem (λ e. HasBest e (dedupe_edges es)) es (dedupe_edges_dominates es),
)

map-id : (es : List (FlowEdge ℕ)) → map (winner none) es ≡ es
unfolding winner
map-id [] = refl
map-id (e ∷ es) = ap (◌∷◌ e) (map-id es)

dedupe_edges_of_Distinct :
    (es : List (FlowEdge ℕ)) → Distinct (map dedupe_key es) → dedupe_edges es ≡ es
unfolding dedupe_edges get
dedupe_edges_of_Distinct es d =
    ap values (
      best_of-collect es []
      ∙ collect_of_IsFresh str_discrete dedupe_key winner es [] d (All-of_Elem _ es (λ e m. refl)))
    ∙ values-map dedupe_key (winner none) es
    ∙ map-id es

-- Deduplicating a second time changes nothing.
pub dedupe_edges_idem : (es : List (FlowEdge ℕ)) → dedupe_edges (dedupe_edges es) ≡ dedupe_edges es
dedupe_edges_idem es = dedupe_edges_of_Distinct (dedupe_edges es) (dedupe_edges-Distinct es)
