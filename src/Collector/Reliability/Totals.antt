-- ===== src/Collector/Reliability/Totals.antt =====
-- What the loops of detectReliabilityBreaches add up: for each entity, the values of the edges that
-- touch it.
use nfm_dashboard.Prelude.{
  ℕ, ◌+◌, List, [], ◌∷◌, false, ite, ◌≡◌, inl, inr, refl, ◌∙◌, if◌then◌else◌, or_else, Distinct,
  arith, Bool-cases,
}
use nfm_dashboard.Prelude.Text.{Str, str_discrete}
use nfm_dashboard.Prelude.Map.{get, put, keys, get-put, put-Distinct}
use nfm_dashboard.Prelude.Set.{contains, contains→Elem, add_all-Distinct, to_set}
use nfm_dashboard.Collector.Types.{
  MetricName, MetricName-discrete, FlowEdge, data_transferred, retransmissions, timeouts,
}
use nfm_dashboard.Collector.Reliability.{
  Slot, empty_slot, entity_key, entities, add_value, count_for, count_edge, count_all,
}

-- What an edge adds to an entity's total of a metric.
unfoldable pub amount : MetricName → Str → FlowEdge ℕ → ℕ
amount metric k f =
    if contains str_discrete k (entities f)
    then ite (MetricName-discrete f.metric metric) f.value 0
    else 0

-- The total of a metric over the edges that touch an entity.
pub total : MetricName → Str → List (FlowEdge ℕ) → ℕ
total metric k [] = 0
total metric k (f ∷ edges) = amount metric k f + total metric k edges

abbrev pub slot_at : Str → List (Str × Slot) → Slot
slot_at k acc = or_else (get str_discrete k acc) empty_slot

slot_at-put :
    (k j : Str) (s : Slot) (acc : List (Str × Slot))
    → slot_at k (put str_discrete j s acc) ≡ ite (str_discrete j k) s (slot_at k acc)
slot_at-put k j s acc = ground (arith, get-put str_discrete j k s acc)

slot_at-count_for :
    (f : FlowEdge ℕ) (ks : List Str) (acc : List (Str × Slot)) (k : Str)
    → Distinct ks
    → slot_at k (count_for f ks acc)
      ≡ (if contains str_discrete k ks then add_value f (slot_at k acc) else slot_at k acc)
unfolding count_for contains
slot_at-count_for f [] acc k d = refl
slot_at-count_for f (j ∷ ks) acc k (n, d) =
    let acc' = put str_discrete j (add_value f (slot_at j acc)) acc in
    slot_at-count_for f ks acc' k d ∙ elim (str_discrete j k) [
      | yes p ↦
          let fresh : contains str_discrete k ks ≡ false =
            elim (Bool-cases (contains str_discrete k ks)) [
              | inl e ↦ absurd (n (rw p (contains→Elem str_discrete k ks e)))
              | inr e ↦ e
            ] in
          ground (arith, slot_at-put k j (add_value f (slot_at j acc)) acc)
      | no p ↦ ground (arith, slot_at-put k j (add_value f (slot_at j acc)) acc)
    ]

entities-Distinct : (f : FlowEdge ℕ) → Distinct (entities f)
unfolding entities to_set
entities-Distinct f = add_all-Distinct str_discrete [] (entity_key f.a ∷ entity_key f.b ∷ []) tt

-- One edge moves the three totals of every entity by its amounts.
pub record IsAdded (s t : Slot) (k : Str) (es : List (FlowEdge ℕ)) : Type 0 where
  pub bytes : t.bytes ≡ s.bytes + total data_transferred k es
  pub retransmissions : t.retransmissions ≡ s.retransmissions + total retransmissions k es
  pub timeouts : t.timeouts ≡ s.timeouts + total timeouts k es

count_edge-IsAdded :
    (f : FlowEdge ℕ) (acc : List (Str × Slot)) (k : Str)
    → IsAdded (slot_at k acc) (slot_at k (count_edge acc f)) k (f ∷ [])
unfolding count_edge add_value total amount MetricName-discrete
count_edge-IsAdded f acc k =
    ground (arith, slot_at-count_for f (entities f) acc k (entities-Distinct f))

-- After the loop the three totals of an entity are those over all the edges.
pub count_all-IsAdded :
    (es : List (FlowEdge ℕ)) (acc : List (Str × Slot)) (k : Str)
    → IsAdded (slot_at k acc) (slot_at k (count_all acc es)) k es
unfolding count_all total
count_all-IsAdded [] acc k = omega arith
count_all-IsAdded (f ∷ es) acc k =
    omega (arith, count_edge-IsAdded f acc k, count_all-IsAdded es (count_edge acc f) k)

count_for-Distinct :
    (f : FlowEdge ℕ) (ks : List Str) (acc : List (Str × Slot))
    → Distinct (keys acc)
    → Distinct (keys (count_for f ks acc))
unfolding count_for
count_for-Distinct f [] acc d = d
count_for-Distinct f (k ∷ ks) acc d =
    count_for-Distinct f ks _ (put-Distinct str_discrete k _ acc d)

count_edge-Distinct :
    (f : FlowEdge ℕ) (acc : List (Str × Slot))
    → Distinct (keys acc)
    → Distinct (keys (count_edge acc f))
unfolding count_edge
count_edge-Distinct f acc d = ground (arith, count_for-Distinct f (entities f) acc d)

pub count_all-Distinct :
    (es : List (FlowEdge ℕ)) (acc : List (Str × Slot))
    → Distinct (keys acc)
    → Distinct (keys (count_all acc es))
unfolding count_all
count_all-Distinct [] acc d = d
count_all-Distinct (f ∷ es) acc d = count_all-Distinct es _ (count_edge-Distinct f acc d)
