-- ===== src/Collector/Rollup/Groups.antt =====
-- What mergeHourEdges returns: the greatest of each group, with the values of their keys.
use mathlib.Core.Path.{subst, ap₂}
use nfm_dashboard.Prelude.{
  ℕ, List, [], ◌∷◌, map, true, ite, ◌≡◌, inl, inr, refl, sym, ap, ◌∙◌, take, All, Elem, Distinct,
  arith, Elem-map_of, All-of_Elem, Elem-filter,
}
use nfm_dashboard.Prelude.Text.{Str, str_discrete, str_le}
use nfm_dashboard.Prelude.Map.{keys, values, Elem-values, Elem-keys-collect}
use nfm_dashboard.Prelude.Group.{of_key, key_of_key}
use nfm_dashboard.Prelude.Sort.{sort}
use nfm_dashboard.Prelude.Ratio.{Ratio, whole}
use nfm_dashboard.Collector.Types.{MetricName, MetricName-discrete, FlowEdge, round_trip_time}
use nfm_dashboard.Collector.Rollup.{
  Acc, merge_key, accumulate, merge_one, merged_edge, merged_edges, greater_first,
}
use nfm_dashboard.Collector.Rollup.Sums.{
  raws, sum_of, count_of, IsMergeOf, accumulate-IsMergeOf, accumulate-Distinct,
}

-- The edges of the hour before the cut, one for each key.
abbrev pub hour_edges : List (FlowEdge ℕ) → Str → List (FlowEdge Ratio)
hour_edges raw hour = merged_edges hour (values (accumulate raw))

Elem-merged_edges :
    (hour : Str) (xs : List Acc) (h : FlowEdge Ratio)
    → Elem h (merged_edges hour xs)
    → (x : Acc) × Elem x xs × (h ≡ merged_edge hour x)
unfolding merged_edges
Elem-merged_edges hour [] h m = absurd m
Elem-merged_edges hour (x ∷ xs) h (inl e) = (x, inl refl, e)
Elem-merged_edges hour (x ∷ xs) h (inr m) =
    let (y, i, e) = Elem-merged_edges hour xs h m in (y, inr i, e)

-- The value of an hour: the mean for a round trip time, the sum for a counter.
unfoldable pub hour_value : MetricName → List (FlowEdge ℕ) → Ratio
hour_value metric es =
    ite (MetricName-discrete metric round_trip_time) (record { num = sum_of es; den = count_of es })
      (whole (sum_of es))

-- The edge has the hour's bucket, the value of the raw edges given, and the endpoints and the port of
-- one of them that no other is later than.
pub record IsHourOf (hour : Str) (h : FlowEdge Ratio) (es : List (FlowEdge ℕ)) : Type 0 where
  pub bucket : h.bucket ≡ hour
  pub value : h.value ≡ hour_value h.metric es
  pub latest : FlowEdge ℕ
  pub member : Elem latest es
  pub is_latest : All (λ e. str_le e.bucket latest.bucket ≡ true) es
  pub fields : (h.a ≡ latest.a) × (h.b ≡ latest.b) × (h.target_port ≡ latest.target_port)

merged_edge-IsHourOf :
    (hour : Str) (x : Acc) (es : List (FlowEdge ℕ))
    → IsMergeOf es x
    → IsHourOf hour (merged_edge hour x) es
unfolding merged_edge hour_value
merged_edge-IsHourOf hour x es m = record {
  bucket = refl;
  value = ground arith;
  latest = x.edge;
  member = m.member;
  is_latest = rw m.bucket at m.latest;
  fields = (refl, refl, refl);
}

Elem-key :
    (raw : List (FlowEdge ℕ)) (hour k : Str) (x : Acc)
    → Elem (k, x) (accumulate raw)
    → merge_key (merged_edge hour x) ≡ k
unfolding merge_key merged_edge
Elem-key raw hour k x m =
    let of = accumulate-IsMergeOf raw k x m in
    key_of_key str_discrete merge_key k x.edge
      (Elem-filter (of_key str_discrete merge_key k) raw x.edge of.member).1

pub hour_edges-IsHourOf :
    (raw : List (FlowEdge ℕ)) (hour : Str) (h : FlowEdge Ratio)
    → Elem h (hour_edges raw hour)
    → IsHourOf hour h (raws (merge_key h) raw)
hour_edges-IsHourOf raw hour h m =
    let (x, i, e) = Elem-merged_edges hour _ h m in
    let (k, entry) = Elem-values (accumulate raw) x i in
    let of = accumulate-IsMergeOf raw k x entry in
    let same : merge_key h ≡ k = ap merge_key e ∙ Elem-key raw hour k x entry in
    subst (λ y. IsHourOf hour h (raws y raw)) (sym same)
      (subst (λ y. IsHourOf hour y (raws k raw)) (sym e)
        (merged_edge-IsHourOf hour x (raws k raw) of))

-- The greatest of each group.
abbrev pub top : ℕ → List (FlowEdge Ratio) → List (FlowEdge Ratio)
top cap group = take cap (sort greater_first group)

map-merge_key :
    (hour : Str) (m : List (Str × Acc))
    → All (λ x. merge_key (merged_edge hour x.1) ≡ x.0) m
    → map merge_key (merged_edges hour (values m)) ≡ keys m
unfolding merged_edges
map-merge_key hour [] h = refl
map-merge_key hour (x ∷ m) (p, h) = ap₂ ◌∷◌ p (map-merge_key hour m h)

keys-hour_edges :
    (raw : List (FlowEdge ℕ)) (hour : Str)
    → map merge_key (hour_edges raw hour) ≡ keys (accumulate raw)
keys-hour_edges raw hour =
    map-merge_key hour (accumulate raw)
      (All-of_Elem _ (accumulate raw) (λ x m. Elem-key raw hour x.0 x.1 m))

-- Before the cut there is one edge for each key of the raw edges, and no key has two.
pub hour_edges_keys :
    (raw : List (FlowEdge ℕ)) (hour : Str)
    → Distinct (map merge_key (hour_edges raw hour))
      × All (λ e. Elem (merge_key e) (map merge_key (hour_edges raw hour))) raw
hour_edges_keys raw hour = rw (keys-hour_edges raw hour) (
  accumulate-Distinct raw,
  All-of_Elem _ raw (λ e m.
      Elem-keys-collect str_discrete merge_key merge_one raw [] (merge_key e)
        (inr (Elem-map_of merge_key raw e m))),
)
