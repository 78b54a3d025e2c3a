-- ===== src/Collector/Reliability/Detect.antt =====
-- detectReliabilityBreaches reports exactly the entities above a threshold, each once.
use nfm_dashboard.Prelude.{
  ℕ, ◌*◌, ◌^◌, ◌<◌, List, [], ◌∷◌, map, Bool, true, ◌≡◌, ◌⊎◌, ◌↔◌, inl, inr, ap, Elem, Distinct,
  arith, Bool-cases, Option-cases, Elem-map, Elem-map_of, All, All-of_Elem,
}
use nfm_dashboard.Prelude.Text.{Str, str_discrete}
use nfm_dashboard.Prelude.Map.{get, keys, get-Elem, Elem-get}
use nfm_dashboard.Prelude.Sort.{Elem-sort, Elem-sort_of, sort-Distinct}
use nfm_dashboard.Collector.Types.{FlowEdge, data_transferred, retransmissions, timeouts}
use nfm_dashboard.Collector.Reliability.{
  BreachRow, Slot, empty_slot, is_breach, rate_per_gb, row_of, breach_rows, count_all, row_before,
  detect_reliability_breaches,
}
use nfm_dashboard.Collector.Reliability.Totals.{
  total, slot_at, count_all-IsAdded, count_all-Distinct,
}

-- More than 10 retransmissions or 5 timeouts per 10^9 bytes, and some bytes at all.
abbrev pub IsAbove : ℕ → ℕ → ℕ → Type 0
IsAbove bytes retrans timed_out =
    (0 < bytes) × ((10 * bytes < retrans * 10 ^ 9) ⊎ (5 * bytes < timed_out * 10 ^ 9))

abbrev pub IsBreaching : Str → List (FlowEdge ℕ) → Type 0
IsBreaching k es =
    IsAbove (total data_transferred k es) (total retransmissions k es) (total timeouts k es)

-- A row shows the rates of its entity's totals.
abbrev pub HasRates : BreachRow → List (FlowEdge ℕ) → Type 0
HasRates r es =
    (r.retrans_rate
      ≡ rate_per_gb (total retransmissions r.key es) (total data_transferred r.key es))
    × (r.timeout_rate ≡ rate_per_gb (total timeouts r.key es) (total data_transferred r.key es))

is_breach_iff : (s : Slot) → (is_breach s ≡ true) ↔ IsAbove s.bytes s.retransmissions s.timeouts
unfolding is_breach
is_breach_iff s = ground arith

Elem-breach_rows :
    (acc : List (Str × Slot)) (r : BreachRow)
    → Elem r (breach_rows acc)
    → (s : Slot) × Elem (r.key, s) acc × (is_breach s ≡ true) × (r ≡ row_of r.key s)
unfolding breach_rows
Elem-breach_rows [] r m = absurd m
Elem-breach_rows ((key, s) ∷ acc) r m = elim (Bool-cases (is_breach s)) [
  | inl e ↦ elim (rw (e, breach_rows) at m) [
    | inl q ↦ (s, inl (ap (λ (x : BreachRow). (x.key, s)) q), e, rw q)
    | inr n ↦ let (t, i, h, q) = Elem-breach_rows acc r n in (t, inr i, h, q)
  ]
  | inr e ↦ let (t, i, h, q) = Elem-breach_rows acc r (rw (e, breach_rows) at m) in (t, inr i, h, q)
]

Elem-breach_rows_of :
    (acc : List (Str × Slot)) (k : Str) (s : Slot)
    → Elem (k, s) acc
    → is_breach s ≡ true
    → Elem (row_of k s) (breach_rows acc)
unfolding breach_rows
Elem-breach_rows_of [] k s m h = absurd m
Elem-breach_rows_of ((key, t) ∷ acc) k s (inl q) h =
    let e : s ≡ t = ap (λ (x : Str × Slot). x.1) q in
    let same : k ≡ key = ap (λ (x : Str × Slot). x.0) q in rw (← e, h) (inl (rw same))
Elem-breach_rows_of ((key, t) ∷ acc) k s (inr m) h = ground (arith, Elem-breach_rows_of acc k s m h)

-- The rows keep the keys of their slots, in the same order.
keys-breach_rows :
    (acc : List (Str × Slot)) (k : Str)
    → Elem k (map (λ r. r.key) (breach_rows acc))
    → Elem k (keys acc)
unfolding breach_rows
keys-breach_rows [] k m = absurd m
keys-breach_rows ((key, s) ∷ acc) k m = ground (arith, keys-breach_rows acc k)

breach_rows-Distinct :
    (acc : List (Str × Slot)) → Distinct (keys acc) → Distinct (map (λ r. r.key) (breach_rows acc))
unfolding breach_rows
breach_rows-Distinct [] d = tt
breach_rows-Distinct ((key, s) ∷ acc) (n, d) =
    ground (arith, breach_rows-Distinct acc d, keys-breach_rows acc key)

slot_totals :
    (es : List (FlowEdge ℕ)) (k : Str) (s : Slot)
    → slot_at k (count_all [] es) ≡ s
    → (s.bytes ≡ total data_transferred k es)
      × (s.retransmissions ≡ total retransmissions k es)
      × (s.timeouts ≡ total timeouts k es)
unfolding get
slot_totals es k s e = ground (arith, count_all-IsAdded es [] k)

module _ (locale_lt : Str → Str → Bool) (es : List (FlowEdge ℕ)) where
  rows_sound :
      (r : BreachRow)
      → Elem r (detect_reliability_breaches locale_lt es)
      → IsBreaching r.key es × HasRates r es
  unfolding detect_reliability_breaches
  rows_sound r m =
      let (s, i, h, q) =
        Elem-breach_rows (count_all [] es) r (Elem-sort (row_before locale_lt) _ r m) in
      let found = Elem-get str_discrete r.key s _ (count_all-Distinct es [] tt) i in
      let totals = slot_totals es r.key s (rw found) in
      let above = (is_breach_iff s).0 h in (ground arith, (ground arith, ground arith))

  rows_complete :
      (k : Str)
      → IsBreaching k es
      → Elem k (map (λ r. r.key) (detect_reliability_breaches locale_lt es))
  unfolding detect_reliability_breaches
  rows_complete k h = elim (Option-cases (get str_discrete k (count_all [] es))) [
    | inl e ↦ let totals = slot_totals es k empty_slot (rw e) in absurd (ground arith)
    | inr (s, e) ↦
        let totals = slot_totals es k s (rw e) in
        let breach = (is_breach_iff s).1 (ground arith) in
        Elem-map_of (λ (r : BreachRow). r.key) _ (row_of k s)
          (Elem-sort_of (row_before locale_lt) _ _
            (Elem-breach_rows_of _ k s (get-Elem str_discrete k s _ e) breach))
  ]

-- An entity has a row exactly when the edges that touch it carry some bytes and, per 10^9 bytes,
-- more than 10 retransmissions or more than 5 timeouts; no entity has two rows, and the rates of each
-- row are those of its entity's totals.
pub detect_reliability_breaches_exact :
    (locale_lt : Str → Str → Bool) (es : List (FlowEdge ℕ)) (k : Str)
    → (Elem k (map (λ r. r.key) (detect_reliability_breaches locale_lt es)) ↔ IsBreaching k es)
      × Distinct (map (λ r. r.key) (detect_reliability_breaches locale_lt es))
      × All (λ r. HasRates r es) (detect_reliability_breaches locale_lt es)
unfolding detect_reliability_breaches
detect_reliability_breaches_exact locale_lt es k = (
  (
    λ m.
        let (r, i, e) = Elem-map (λ (x : BreachRow). x.key) _ k m in
        rw e (rows_sound locale_lt es r i).0,
    rows_complete locale_lt es k,
  ),
  sort-Distinct (row_before locale_lt) (λ (r : BreachRow). r.key) _
      (breach_rows-Distinct (count_all [] es) (count_all-Distinct es [] tt)),
  All-of_Elem (λ r. HasRates r es) _ (λ r m. (rows_sound locale_lt es r m).1),
)
