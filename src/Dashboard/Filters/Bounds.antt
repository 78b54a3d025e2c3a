-- ===== src/Dashboard/Filters/Bounds.antt =====
-- What the filters let through.
use mathlib.Core.Path.{subst}
use nfm_dashboard.Prelude.{
  ◌≤◌, Option, none, some, List, [], ◌∷◌, filter, Bool, true, ◌&&◌, ◌≡◌, ◌≢◌, ◌↔◌, ◌⊎◌, inl, inr,
  if_pos, if_neg, refl, sym, ap, arith,
}
use nfm_dashboard.Prelude.Text.{Str, codes, str_discrete, truthy}
use nfm_dashboard.Prelude.Ratio.{Ratio, whole}
use nfm_dashboard.Collector.Types.{FlowEdge, MetricName, metric_text, category_text}
use nfm_dashboard.Dashboard.Filters.{
  TimeRange, range_text, AnalyticsFilters, range_to_buckets, max_buckets, buckets_from, wanted,
  has_category, is_text, touches_namespace, apply_flow_filters, RawFilters, parse_filters,
  time_ranges, metric_names, find_by,
}

-- The window of a request has from 1 to 2016 buckets, whatever number it asks for; and each range of
-- the pages asks for a number that comes back unchanged.
pub buckets_from_bounded :
    (raw : Option Ratio) (r : TimeRange)
    → (1 ≤ buckets_from raw)
      × (buckets_from raw ≤ max_buckets)
      × (buckets_from (some (whole (range_to_buckets r))) ≡ range_to_buckets r)
unfolding buckets_from range_to_buckets
buckets_from_bounded raw r = ground arith

module _ {N : Type 0} where
  -- A flow passes a filter that asks for nothing, or if the test holds for what it asks for.
  abbrev pub passes : (Str → FlowEdge N → Bool) → Option Str → FlowEdge N → Bool
  passes test o f = elim (wanted o) [ none ↦ true | some s ↦ test s f ]

  filter-filter :
      (p q : FlowEdge N → Bool) (fs : List (FlowEdge N))
      → filter q (filter p fs) ≡ filter (λ f. p f && q f) fs
  filter-filter p q [] = refl
  filter-filter p q (f ∷ fs) = ground (arith, filter-filter p q fs)

  filter-true : (fs : List (FlowEdge N)) → filter (λ f. true) fs ≡ fs
  filter-true [] = refl
  filter-true (f ∷ fs) = ap (◌∷◌ f) (filter-true fs)

  filter_and_true :
      (p : FlowEdge N → Bool) (fs : List (FlowEdge N)) → filter (λ f. p f && true) fs ≡ filter p fs
  filter_and_true p [] = refl
  filter_and_true p (f ∷ fs) = ground (arith, filter_and_true p fs)

  -- The flows that are left are, in their order, those that pass both filters.
  filter-passes :
      (flows : List (FlowEdge N)) (namespace category : Option Str)
      → apply_flow_filters flows namespace category
        ≡ filter (λ f. passes has_category category f && passes touches_namespace namespace f) flows
  unfolding apply_flow_filters
  filter-passes flows namespace category = split (wanted category) (wanted namespace)
    where
      split :
          (c n : Option Str)
          → (let out : List (FlowEdge N) = elim c [
            | none ↦ flows
            | some c ↦ filter (has_category c) flows
          ] in
              elim n as (λ x. List (FlowEdge N)) [
                | none ↦ out
                | some n ↦ filter (touches_namespace n) out
              ])
            ≡ filter
                (λ (f : FlowEdge N).
                  elim c as (λ x. Bool) [ none ↦ true | some s ↦ has_category s f ]
                  && elim n as (λ x. Bool) [ none ↦ true | some s ↦ touches_namespace s f ])
                flows
      split none none = sym (filter-true flows)
      split none (some n) = refl
      split (some c) none = sym (filter_and_true (has_category c) flows)
      split (some c) (some n) = filter-filter (has_category c) (touches_namespace n) flows

-- A value that asks for nothing, as it is missing, empty or `all`, or one that holds for what it asks.
abbrev pub Allows : Option Str → (Str → Type 0) → Type 0
Allows o P =
    (o ≡ none) ⊎ (o ≡ some []) ⊎ (o ≡ some (codes "all")) ⊎ ((s : Str) × (o ≡ some s) × P s)

is_text-some : (s t : Str) → (is_text s (some t) ≡ true) ↔ (t ≡ s)
is_text-some s t = ground arith

wanted_cases :
    (o : Option Str)
    → ((wanted o ≡ none) × ((o ≡ none) ⊎ (o ≡ some []) ⊎ (o ≡ some (codes "all"))))
      ⊎ ((s : Str) × (o ≡ some s) × (wanted o ≡ some s) × (s ≢ []) × (s ≢ codes "all"))
unfolding truthy
wanted_cases none = inl (refl, inl refl)
wanted_cases (some []) = inl (refl, inr (inl refl))
wanted_cases (some (c ∷ s)) = elim (str_discrete (c ∷ s) (codes "all")) [
  | yes p ↦
      inl (if_pos (str_discrete (c ∷ s) (codes "all")) p none (some (c ∷ s)), inr (inr (ap some p)))
  | no p ↦
      inr (
        c ∷ s,
        refl,
        if_neg (str_discrete (c ∷ s) (codes "all")) p none (some (c ∷ s)),
        (λ e. cc),
        p,
      )
]

module _ {N : Type 0} where
  -- The category asked for is that of the flow, and the namespace that of one of its endpoints.
  abbrev pub IsAllowed : Option Str → Option Str → FlowEdge N → Type 0
  IsAllowed namespace category f =
      Allows category (λ s. category_text f.category ≡ s)
      × Allows namespace (λ s. (f.a.pod_namespace ≡ some s) ⊎ (f.b.pod_namespace ≡ some s))

  passes-Allows :
      (test : Str → FlowEdge N → Bool) (o : Option Str) (f : FlowEdge N) (P : Str → Type 0)
      → ((s : Str) → (test s f ≡ true) ↔ P s)
      → (passes test o f ≡ true) ↔ Allows o P
  passes-Allows test o f P h = elim (wanted_cases o) [
    | inl (e, idle) ↦ (
      λ x. elim idle [
        | inl a ↦ inl a
        | inr b ↦ inr (elim b [ inl a ↦ inl a | inr c ↦ inr (inl c) ])
      ],
      λ x. rw (e, passes) refl,
    )
    | inr (s, p, e, n, m) ↦ (
      λ x. inr (inr (inr (s, p, (h s).0 (rw (e, passes) at x)))),
      λ x. elim x [
        | inl a ↦ cc
        | inr (inl a) ↦ absurd (n (cc))
        | inr (inr (inl a)) ↦ absurd (m (cc))
        | inr (inr (inr (t, q, r))) ↦
            let same : t ≡ s = cc in rw (e, passes) ((h s).1 (subst P same r))
      ],
    )
  ]

  touches_namespace_iff :
      (f : FlowEdge N) (s : Str)
      → (touches_namespace s f ≡ true)
        ↔ ((f.a.pod_namespace ≡ some s) ⊎ (f.b.pod_namespace ≡ some s))
  touches_namespace_iff f s = ground arith

  -- The flows that are left are, in their order and as often, exactly those that the filters allow: the
  -- category is the one asked for, and the namespace is that of one of the two endpoints; a filter that
  -- is missing, empty or `all` asks for nothing.
  pub apply_flow_filters-IsAllowed :
      (flows : List (FlowEdge N)) (namespace category : Option Str)
      → (q : FlowEdge N → Bool) × (apply_flow_filters flows namespace category ≡ filter q flows)
        × ((f : FlowEdge N) → (q f ≡ true) ↔ IsAllowed namespace category f)
  apply_flow_filters-IsAllowed flows namespace category = (
    λ f. passes has_category category f && passes touches_namespace namespace f,
    filter-passes flows namespace category,
    λ f.
        let (to, from) =
          passes-Allows has_category category f (λ s. category_text f.category ≡ s)
            (λ s. is_text-some s (category_text f.category)) in
        let (to', from') =
          passes-Allows touches_namespace namespace f
            (λ s. (f.a.pod_namespace ≡ some s) ⊎ (f.b.pod_namespace ≡ some s))
            (touches_namespace_iff f) in
        (
          λ e.
              let one : passes has_category category f ≡ true = ground arith in
              let two : passes touches_namespace namespace f ≡ true = ground arith in
              (to one, to' two),
          λ (a, b). let one = from a in let two = from' b in rw (one, two) refl,
        ),
  )

-- The record of a value of the filters.
abbrev pub raw_of : AnalyticsFilters → RawFilters
raw_of f = record {
  range = some (range_text f.range);
  cluster = some f.cluster;
  namespace = some f.namespace;
  category = some f.category;
  metric = some (metric_text f.metric);
}

pub find_range : (r : TimeRange) → find_by range_text time_ranges (some (range_text r)) ≡ some r
unfolding range_text str_discrete
find_range r = ground arith

find_metric : (m : MetricName) → find_by metric_text metric_names (some (metric_text m)) ≡ some m
unfolding metric_text str_discrete
find_metric m = ground arith

-- Filters whose texts are not empty are read back from their record.
pub parse_filters-raw_of :
    (f : AnalyticsFilters)
    → truthy (some f.cluster) ≡ some f.cluster
    → truthy (some f.namespace) ≡ some f.namespace
    → truthy (some f.category) ≡ some f.category
    → parse_filters (raw_of f) ≡ f
unfolding parse_filters
parse_filters-raw_of f p q r = rw (find_range f.range, find_metric f.metric, p, q, r) refl
