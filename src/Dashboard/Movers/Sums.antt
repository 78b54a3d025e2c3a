-- ===== src/Dashboard/Movers/Sums.antt =====
-- The sums of the entities are the totals of the flows that touch them.
use nfm_dashboard.Prelude.{
  ℕ, ◌+◌, List, [], ◌∷◌, false, ite, if◌then◌else◌, ◌≡◌, ◌∙◌, Elem, Distinct, Bool-cases,
  Option-cases, ◌⊎◌, inl, inr, arith,
}
use nfm_dashboard.Prelude.Text.{Str, str_discrete}
use nfm_dashboard.Prelude.Map.{get, put, keys, get-put, get-Elem, Elem-keys}
use nfm_dashboard.Prelude.Set.{contains, contains→Elem, to_set, add_all-Distinct}
use nfm_dashboard.Collector.Types.{MetricName, MetricName-discrete, FlowEdge}
use nfm_dashboard.Dashboard.Aggregate.{entity_key, service_kind}
use nfm_dashboard.Dashboard.Movers.{entities, add_for, sums_from, value_at}

-- What a flow adds to an entity: its value if it has the metric and touches the entity.
unfoldable pub amount : MetricName → Str → FlowEdge ℕ → ℕ
amount metric k f =
    if contains str_discrete k (entities f)
    then ite (MetricName-discrete f.metric metric) f.value 0
    else 0

unfoldable pub total : MetricName → Str → List (FlowEdge ℕ) → ℕ
unfolding amount
total metric k [] = 0
total metric k (f ∷ flows) = amount metric k f + total metric k flows

value_at-put :
    (k j : Str) (v : ℕ) (acc : List (Str × ℕ))
    → value_at k (put str_discrete j v acc) ≡ ite (str_discrete j k) v (value_at k acc)
value_at-put k j v acc = ground (arith, get-put str_discrete j k v acc)

value_at-add_for :
    (value : ℕ) (ks : List Str) (acc : List (Str × ℕ)) (k : Str)
    → Distinct ks
    → value_at k (add_for value ks acc)
      ≡ value_at k acc + (if contains str_discrete k ks then value else 0)
unfolding add_for contains
value_at-add_for value [] acc k d = omega arith
value_at-add_for value (j ∷ ks) acc k (n, d) =
    let put_value = value_at-put k j (value_at j acc + value) acc in
    value_at-add_for value ks (put str_discrete j (value_at j acc + value) acc) k d
    ∙ elim (str_discrete j k) [
      | yes p ↦
          let fresh : contains str_discrete k ks ≡ false =
            elim (Bool-cases (contains str_discrete k ks)) [
              | inl e ↦ absurd (n (rw p (contains→Elem str_discrete k ks e)))
              | inr e ↦ e
            ] in
          ground (arith, put_value)
      | no p ↦ ground (arith, put_value)
    ]

entities-Distinct : (f : FlowEdge ℕ) → Distinct (entities f)
unfolding to_set
entities-Distinct f =
    add_all-Distinct str_discrete []
      (entity_key f.a service_kind ∷ entity_key f.b service_kind ∷ []) tt

added : MetricName → FlowEdge ℕ → List (Str × ℕ) → List (Str × ℕ)
added metric f acc =
    ite (MetricName-discrete f.metric metric) (add_for f.value (entities f) acc) acc

value_at-added :
    (metric : MetricName) (f : FlowEdge ℕ) (acc : List (Str × ℕ)) (k : Str)
    → value_at k (added metric f acc) ≡ value_at k acc + amount metric k f
unfolding added amount
value_at-added metric f acc k =
    ground (arith, value_at-add_for f.value (entities f) acc k (entities-Distinct f))

-- After the loop the sum of an entity has grown by its total.
pub value_at-sums_from :
    (metric : MetricName) (flows : List (FlowEdge ℕ)) (acc : List (Str × ℕ)) (k : Str)
    → value_at k (sums_from metric flows acc) ≡ value_at k acc + total metric k flows
unfolding sums_from total added
value_at-sums_from metric [] acc k = omega arith
value_at-sums_from metric (f ∷ flows) acc k =
    omega
      (arith, value_at-sums_from metric flows (added metric f acc) k, value_at-added metric f acc k)

-- An entity whose total is not 0 has an entry.
pub Elem-sums_from :
    (metric : MetricName) (flows : List (FlowEdge ℕ)) (k : Str)
    → (total metric k flows ≡ 0) ⊎ Elem k (keys (sums_from metric flows []))
unfolding get
Elem-sums_from metric flows k =
    elim (Option-cases (get str_discrete k (sums_from metric flows []))) [
      | inl e ↦ inl (ground (arith, value_at-sums_from metric flows [] k))
      | inr (v, e) ↦ inr (Elem-keys str_discrete k v _ (get-Elem str_discrete k v _ e))
    ]
