-- ===== src/Dashboard/Reliability/Lockstep.antt =====
-- The collector's copy of the breach detection stays in step with the reliability lens:
-- collector/src/reliability-alert.ts and app/src/lib/analytics/reliability.ts.
use mathlib.Core.Path.{subst, ap₂}
use nfm_dashboard.Prelude.{
  ℕ, List, [], ◌∷◌, map, filter, Bool, ◌≡◌, ◌↔◌, refl, inl, inr, sym, ap, ◌∙◌, Elem, Elem-map,
  Elem-map_of, Elem-filter, Elem-filter_of, arith, Bool-cases,
}
use nfm_dashboard.Prelude.Text.{Str}
use nfm_dashboard.Prelude.Sort.{sort, Elem-sort, Elem-sort_of}
use nfm_dashboard.Collector.Types.{EndpointInfo, FlowEdge, round_trip_time}
use nfm_dashboard.Collector.Reliability.{
  Slot, empty_slot, BreachRow, add_value, count_for, count_edge, count_all, entities, is_breach,
  breach_rows, row_of, row_before, detect_reliability_breaches,
}
use nfm_dashboard.Dashboard.Aggregate.{service_kind}
use nfm_dashboard.Dashboard.Reliability.{
  ReliabilityRow, ends_by, add_event, add_events, events_by, row_of_slot, no_opts, exceeds,
  rate_order, severity_order, rate_per, threshold_breaches,
}

entity_key_same :
    (e : EndpointInfo)
    → nfm_dashboard.Dashboard.Aggregate.entity_key e service_kind
      ≡ nfm_dashboard.Collector.Reliability.entity_key e
unfolding nfm_dashboard.Dashboard.Aggregate.entity_key
    nfm_dashboard.Collector.Reliability.entity_key
entity_key_same e = refl

ends_by_same : (f : FlowEdge ℕ) → ends_by service_kind f ≡ entities f
unfolding ends_by entities
ends_by_same f = rw (entity_key_same f.a, entity_key_same f.b) refl

add_events_same :
    (f : FlowEdge ℕ) (ks : List Str) (acc : List (Str × Slot))
    → add_events f ks acc ≡ count_for f ks acc
unfolding add_events count_for add_event add_value
add_events_same f [] acc = refl
add_events_same f (k ∷ ks) acc = add_events_same f ks _

events_by_same :
    (flows : List (FlowEdge ℕ)) (acc : List (Str × Slot))
    → events_by service_kind flows acc ≡ count_all acc flows
unfolding events_by count_all count_edge
events_by_same [] acc = refl
events_by_same (f ∷ flows) acc =
    let one : (elim f.metric [
      | round_trip_time ↦ acc
      | _ ↦ add_events f (ends_by service_kind f) acc
    ])
        ≡ count_edge acc f =
      ground (arith, ends_by_same f, add_events_same f (entities f) acc) in
    events_by_same flows _ ∙ ap (λ a. count_all a flows) one

-- What an alert says of a row of the lens.
abbrev pub alert_row : ReliabilityRow → BreachRow
alert_row r = record { key = r.key; retrans_rate = r.retrans_rate; timeout_rate = r.timeout_rate }

rate_same :
    (events bytes : ℕ)
    → nfm_dashboard.Dashboard.Aggregate.rate_per_gb events bytes
      ≡ nfm_dashboard.Collector.Reliability.rate_per_gb events bytes
unfolding nfm_dashboard.Dashboard.Aggregate.rate_per_gb
    nfm_dashboard.Collector.Reliability.rate_per_gb
rate_same events bytes = refl

exceeds_same : (k : Str) (s : Slot) → exceeds no_opts (row_of_slot (k, s)) ≡ is_breach s
unfolding exceeds row_of_slot is_breach
exceeds_same k s = rw (rate_same s.retransmissions s.bytes, rate_same s.timeouts s.bytes) refl

alert_row_same : (k : Str) (s : Slot) → alert_row (row_of_slot (k, s)) ≡ row_of k s
unfolding row_of_slot
alert_row_same k s = rw (rate_same s.retransmissions s.bytes, rate_same s.timeouts s.bytes) refl

breach_rows_same :
    (acc : List (Str × Slot))
    → map alert_row (filter (exceeds no_opts) (map row_of_slot acc)) ≡ breach_rows acc
unfolding breach_rows
breach_rows_same [] = refl
breach_rows_same ((k, s) ∷ acc) = elim (Bool-cases (is_breach s)) [
  | inl b ↦ rw (exceeds_same k s ∙ b, b) (ap₂ ◌∷◌ (alert_row_same k s) (breach_rows_same acc))
  | inr b ↦ rw (exceeds_same k s ∙ b, b) (breach_rows_same acc)
]

-- The sorts keep the rows.
Elem-breaches :
    (locale_lt : Str → Str → Bool) (flows : List (FlowEdge ℕ)) (r : ReliabilityRow)
    → Elem r (threshold_breaches locale_lt (rate_per locale_lt flows service_kind) no_opts)
      ↔ Elem r (filter (exceeds no_opts) (map row_of_slot (events_by service_kind flows [])))
unfolding threshold_breaches rate_per
Elem-breaches locale_lt flows r =
    let rows = map row_of_slot (events_by service_kind flows []) in
    let p = exceeds no_opts in
    let sorted = sort (rate_order locale_lt) rows in
    (
      λ m.
          let (i, q) =
            Elem-filter p sorted r
              (Elem-sort (severity_order locale_lt no_opts) (filter p sorted) r m) in
          Elem-filter_of p rows r (Elem-sort (rate_order locale_lt) rows r i) q,
      λ m.
          let (i, q) = Elem-filter p rows r m in
          Elem-sort_of (severity_order locale_lt no_opts) (filter p sorted) r
            (Elem-filter_of p sorted r (Elem-sort_of (rate_order locale_lt) rows r i) q),
    )

-- Over the same flows the collector alerts on exactly the entities, with the rates, that the lens
-- shows as breaches at its default thresholds; the orders of the two lists may differ.
pub detect-threshold_breaches :
    (locale_lt : Str → Str → Bool) (flows : List (FlowEdge ℕ)) (row : BreachRow)
    → Elem row (detect_reliability_breaches locale_lt flows)
      ↔ Elem row (
          map alert_row
            (threshold_breaches locale_lt (rate_per locale_lt flows service_kind) no_opts))
unfolding detect_reliability_breaches
detect-threshold_breaches locale_lt flows row =
    let acc = events_by service_kind flows [] in
    let found = filter (exceeds no_opts) (map row_of_slot acc) in
    let shown = threshold_breaches locale_lt (rate_per locale_lt flows service_kind) no_opts in
    let same : map alert_row found ≡ breach_rows (count_all [] flows) =
      breach_rows_same acc ∙ ap breach_rows (events_by_same flows []) in
    let alerts = breach_rows (count_all [] flows) in
    (
      λ m.
          let i = Elem-sort (row_before locale_lt) alerts row m in
          let (r, j, p) = Elem-map alert_row found row (subst (Elem row) (sym same) i) in
          rw p (Elem-map_of alert_row shown r ((Elem-breaches locale_lt flows r).1 j)),
      λ m.
          let (r, j, p) = Elem-map alert_row shown row m in
          let i = Elem-map_of alert_row found r ((Elem-breaches locale_lt flows r).0 j) in
          Elem-sort_of (row_before locale_lt) alerts row
            (subst (Elem row) same (subst (λ x. Elem x (map alert_row found)) (sym p) i)),
    )
