-- ===== src/Dashboard/Anomalies/Spikes.antt =====
-- Which spikes are listed, by the totals of the two windows.
use mathlib.Core.Path.{subst}
use nfm_dashboard.Prelude.{
  ℕ, List, [], ◌∷◌, ◌++◌, Bool, true, ite, ◌≡◌, ◌≢◌, ◌↔◌, inl, inr, refl, sym, ap, ◌∙◌, Elem,
  Elem-append, Elem-append_left, Elem-append_right, Distinct, arith, Bool-cases, Option-cases,
}
use nfm_dashboard.Prelude.Text.{Str, str_discrete}
use nfm_dashboard.Prelude.Map.{get, keys, put-Distinct, get-Elem, Elem-get}
use nfm_dashboard.Prelude.Sort.{Elem-sort, Elem-sort_of}
use nfm_dashboard.Prelude.Ratio.{ratio_lt}
use nfm_dashboard.Collector.Types.{FlowEdge, MetricName, MetricName-discrete}
use nfm_dashboard.Dashboard.Aggregate.{service_kind}
use nfm_dashboard.Dashboard.Movers.{add_for, sums_from, value_at, entities}
use nfm_dashboard.Dashboard.Movers.Sums.{total, value_at-sums_from}
use nfm_dashboard.Dashboard.Reliability.{ReliabilityRow, rate_per}
use nfm_dashboard.Dashboard.Anomalies.{
  spike_anomaly, Anomaly, AnomalyOpts, spike_metrics, entity_sums, row_anomalies, rate_anomalies,
  is_spike, spike, spikes_of, all_spikes, anomaly_order, detect_anomalies,
}

add_for-Distinct :
    (value : ℕ) (ks : List Str) (acc : List (Str × ℕ))
    → Distinct (keys acc)
    → Distinct (keys (add_for value ks acc))
unfolding add_for
add_for-Distinct value [] acc d = d
add_for-Distinct value (k ∷ ks) acc d =
    add_for-Distinct value ks _ (put-Distinct str_discrete k _ acc d)

sums_from-Distinct :
    (metric : MetricName) (flows : List (FlowEdge ℕ)) (acc : List (Str × ℕ))
    → Distinct (keys acc)
    → Distinct (keys (sums_from metric flows acc))
unfolding sums_from
sums_from-Distinct metric [] acc d = d
sums_from-Distinct metric (f ∷ flows) acc d =
    let one : Distinct
        (keys (ite (MetricName-discrete f.metric metric) (add_for f.value (entities f) acc) acc)) =
      ground (arith, add_for-Distinct f.value (entities f) acc d) in
    sums_from-Distinct metric flows _ one

-- A value of 0 is no spike.
zero_not_spike :
    (opts : AnomalyOpts) (metric : MetricName) (b : ℕ) → ¬ (is_spike opts metric 0 b ≡ true)
unfolding is_spike ratio_lt
zero_not_spike opts metric b p = ground arith

row_not_spike :
    (opts : AnomalyOpts) (row : ReliabilityRow) (a : Anomaly)
    → Elem a (row_anomalies opts row)
    → a.kind ≢ spike_anomaly
unfolding row_anomalies
row_not_spike opts row a m e = ground arith

-- No anomaly of a rate is a spike.
rate_not_spike :
    (opts : AnomalyOpts) (rows : List ReliabilityRow) (a : Anomaly)
    → Elem a (rate_anomalies opts rows)
    → a.kind ≢ spike_anomaly
unfolding rate_anomalies
rate_not_spike opts [] a m = absurd m
rate_not_spike opts (row ∷ rows) a m =
    elim (Elem-append (row_anomalies opts row) (rate_anomalies opts rows) a m) [
      | inl i ↦ row_not_spike opts row a i
      | inr i ↦ rate_not_spike opts rows a i
    ]

-- A spike that a window's sums list, and one that the totals show.
module _ (opts : AnomalyOpts) (current prior : List (FlowEdge ℕ)) where
  abbrev pub now : MetricName → Str → ℕ
  now metric key = total metric key current

  abbrev pub before : MetricName → Str → ℕ
  before metric key = total metric key prior

  abbrev pub IsSpikeAt : MetricName → Anomaly → Type 0
  IsSpikeAt metric a =
      (key : Str) × (is_spike opts metric (now metric key) (before metric key) ≡ true)
      × (a ≡ spike opts metric key (now metric key) (before metric key))

  sum_at :
      (flows : List (FlowEdge ℕ)) (metric : MetricName) (key : Str)
      → value_at key (entity_sums flows metric) ≡ total metric key flows
  unfolding get
  sum_at flows metric key = omega (arith, value_at-sums_from metric flows [] key)

  -- The test and the anomaly of an entry of the current sums.
  abbrev test : MetricName → Str × ℕ → Bool
  test metric x = is_spike opts metric x.1 (value_at x.0 (entity_sums prior metric))

  abbrev made : MetricName → Str × ℕ → Anomaly
  made metric x = spike opts metric x.0 x.1 (value_at x.0 (entity_sums prior metric))

  abbrev IsMade : MetricName → List (Str × ℕ) → Anomaly → Type 0
  IsMade metric cur a = (x : Str × ℕ) × Elem x cur × (test metric x ≡ true) × (a ≡ made metric x)

  Elem-spikes_of :
      (metric : MetricName) (cur : List (Str × ℕ)) (a : Anomaly)
      → Elem a (spikes_of opts metric (entity_sums prior metric) cur) ↔ IsMade metric cur a
  unfolding spikes_of
  Elem-spikes_of metric [] a = (λ m. absurd m, λ (x, i, p, q). absurd i)
  Elem-spikes_of metric ((k, v) ∷ cur) a =
      let (to, from) = Elem-spikes_of metric cur a in
      elim (Bool-cases (test metric (k, v))) [
        | inl b ↦ rw b (
          λ m. elim m [
            | inl e ↦ ((k, v), inl refl, b, e)
            | inr i ↦ let (x, j, p, q) = to i in (x, inr j, p, q)
          ],
          λ (x, j, p, q). elim j [
            | inr i ↦ inr (from (x, i, p, q))
            | inl e ↦ inl (q ∙ ap (made metric) e)
          ],
        )
        | inr b ↦ rw b (
          λ m. let (x, j, p, q) = to m in (x, inr j, p, q),
          λ (x, j, p, q). elim j [
            | inr i ↦ from (x, i, p, q)
            | inl e ↦ let same = ap (test metric) e in ground arith
          ],
        )
      ]

  -- An entry of the current sums is a total, and a total over the bar has an entry.
  IsMade-IsSpikeAt :
      (metric : MetricName) (a : Anomaly)
      → IsMade metric (entity_sums current metric) a ↔ IsSpikeAt metric a
  IsMade-IsSpikeAt metric a = (
    λ ((k, v), i, p, q).
        let g =
          Elem-get str_discrete k v (entity_sums current metric)
            (sums_from-Distinct metric current [] tt) i in
        let c : v ≡ now metric k = ground (arith, sum_at current metric k) in
        let b = sum_at prior metric k in (k, rw (c, b) at p, rw (c, b) at q),
    λ (k, p, q). elim (Option-cases (get str_discrete k (entity_sums current metric))) [
      | inl n ↦
          let none_now : now metric k ≡ 0 = ground (arith, sum_at current metric k) in
          absurd (zero_not_spike opts metric (before metric k) (rw none_now at p))
      | inr (v, g) ↦
          let c : v ≡ now metric k = ground (arith, sum_at current metric k) in
          let b = sum_at prior metric k in
          (
            (k, v),
            get-Elem str_discrete k v (entity_sums current metric) g,
            rw (sym c, sym b) at p,
            rw (sym c, sym b) at q,
          )
    ],
  )

  Elem-all_spikes :
      (metrics : List MetricName) (a : Anomaly)
      → Elem a (all_spikes opts current prior metrics)
        ↔ ((metric : MetricName) × Elem metric metrics × IsSpikeAt metric a)
  unfolding all_spikes
  Elem-all_spikes [] a = (λ m. absurd m, λ (metric, i, s). absurd i)
  Elem-all_spikes (metric ∷ metrics) a =
      let here = spikes_of opts metric (entity_sums prior metric) (entity_sums current metric) in
      let rest = all_spikes opts current prior metrics in
      (
        λ m. elim (Elem-append here rest a m) [
          | inl i ↦ (
            metric,
            inl refl,
            (IsMade-IsSpikeAt metric a).0
                ((Elem-spikes_of metric (entity_sums current metric) a).0 i),
          )
          | inr i ↦ let (m', j, s) = (Elem-all_spikes metrics a).0 i in (m', inr j, s)
        ],
        λ (m', j, s). elim j [
          | inl e ↦ Elem-append_left here rest a (
              (Elem-spikes_of metric (entity_sums current metric) a).1
                ((IsMade-IsSpikeAt metric a).1 (subst (λ x. IsSpikeAt x a) e s)))
          | inr i ↦ Elem-append_right here rest a ((Elem-all_spikes metrics a).1 (m', i, s))
        ],
      )

-- The spikes among the anomalies are those of the two totals, by the test of the code.
pub spikes_listed :
    (locale_lt : Str → Str → Bool) (current prior : List (FlowEdge ℕ)) (opts : AnomalyOpts)
    (a : Anomaly)
    → (Elem a (detect_anomalies locale_lt current prior opts) × (a.kind ≡ spike_anomaly))
      ↔ ((metric : MetricName) × Elem metric spike_metrics × IsSpikeAt opts current prior metric a)
unfolding detect_anomalies
spikes_listed locale_lt current prior opts a =
    let rates = rate_anomalies opts (rate_per locale_lt current service_kind) in
    let spikes = all_spikes opts current prior spike_metrics in
    let order = anomaly_order locale_lt in
    let (to, from) = Elem-all_spikes opts current prior spike_metrics a in
    (
      λ (m, k). elim (Elem-append rates spikes a (Elem-sort order (rates ++ spikes) a m)) [
        | inl i ↦ absurd (rate_not_spike opts (rate_per locale_lt current service_kind) a i k)
        | inr i ↦ to i
      ],
      λ (metric, i, (key, p, q)). (
        Elem-sort_of order (rates ++ spikes) a
            (Elem-append_right rates spikes a (from (metric, i, (key, p, q)))),
        ap (λ (x : Anomaly). x.kind) q,
      ),
    )
