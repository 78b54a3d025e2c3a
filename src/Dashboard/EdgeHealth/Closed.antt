-- ===== src/Dashboard/EdgeHealth/Closed.antt =====
-- The cells of the matrix stand in its rows and columns.
use nfm_dashboard.Prelude.{
  ℕ, List, [], ◌∷◌, map, or_else, inl, inr, refl, All, All-imp, All-Elem, All-of_Elem, Elem,
  Elem-map, Option-cases, arith,
}
use nfm_dashboard.Prelude.Text.{Str, str_discrete, truthy}
use nfm_dashboard.Prelude.Map.{get, values, get-Elem, All-put, Elem-values}
use nfm_dashboard.Prelude.Set.{add, Elem-add_of}
use nfm_dashboard.Prelude.Sort.{Elem-sort_of}
use nfm_dashboard.Collector.Types.{FlowEdge}
use nfm_dashboard.Dashboard.EdgeHealth.{
  HealthLevel, HealthThresholds, HealthSlot, HealthState, level_key, pair_key, new_slot, add_flow,
  see_flow, see_flows, cell_of, build_health_matrix,
}

-- The slots stand in the sets of rows and columns.
abbrev IsInside : List Str → List Str → Str × HealthSlot → Type 0
IsInside rows cols x = Elem x.1.row rows × Elem x.1.col cols

abbrev IsClosed : HealthState → Type 0
IsClosed acc = All (IsInside acc.row_set acc.col_set) acc.slots

add_flow-IsInside :
    (rows cols : List Str) (f : FlowEdge ℕ) (k : Str) (s : HealthSlot)
    → IsInside rows cols (k, s)
    → IsInside rows cols (k, add_flow f s)
unfolding add_flow
add_flow-IsInside rows cols f k s h = ground arith

see_flow-IsClosed :
    (level : HealthLevel) (acc : HealthState) (f : FlowEdge ℕ)
    → IsClosed acc
    → IsClosed (see_flow level acc f)
unfolding see_flow
see_flow-IsClosed level acc f h = elim (Option-cases (truthy (level_key f.a level))) [
  | inl e ↦ rw (e, see_flow) h
  | inr (row, e) ↦ elim (Option-cases (truthy (level_key f.b level))) [
    | inl g ↦ rw (e, see_flow, g) h
    | inr (col, g) ↦
        let rows = add str_discrete acc.row_set row in
        let cols = add str_discrete acc.col_set col in
        let wider : All (IsInside rows cols) acc.slots =
          All-imp _ _ acc.slots
            (λ x i. (
              Elem-add_of str_discrete acc.row_set row x.1.row (inr i.0),
              Elem-add_of str_discrete acc.col_set col x.1.col (inr i.1),
            ))
            h in
        let key = pair_key row col in
        let slot = or_else (get str_discrete key acc.slots) (new_slot row col) in
        let inside : IsInside rows cols (key, slot) =
          elim (Option-cases (get str_discrete key acc.slots)) [
            | inl n ↦ rw n (
              Elem-add_of str_discrete acc.row_set row row (inl refl),
              Elem-add_of str_discrete acc.col_set col col (inl refl),
            )
            | inr (s, n) ↦ rw n (
                All-Elem (IsInside rows cols) acc.slots (key, s) wider
                  (get-Elem str_discrete key s acc.slots n))
          ] in
        rw (e, see_flow, g)
          (All-put str_discrete (IsInside rows cols) key (add_flow f slot) acc.slots
            (add_flow-IsInside rows cols f key slot inside) wider)
  ]
]

see_flows-IsClosed :
    (level : HealthLevel) (flows : List (FlowEdge ℕ)) (acc : HealthState)
    → IsClosed acc
    → IsClosed (see_flows level acc flows)
unfolding see_flows
see_flows-IsClosed level [] acc h = h
see_flows-IsClosed level (f ∷ flows) acc h =
    see_flows-IsClosed level flows (see_flow level acc f) (see_flow-IsClosed level acc f h)

-- Every cell of the matrix has its row among the rows and its column among the columns.
pub build_health_matrix_closed :
    (flows : List (FlowEdge ℕ)) (level : HealthLevel) (opts : HealthThresholds)
    → let m = build_health_matrix flows level opts in
      All (λ c. Elem c.row m.rows × Elem c.col m.cols) m.cells
unfolding build_health_matrix cell_of
build_health_matrix_closed flows level opts =
    let acc = see_flows level (record { slots = []; row_set = []; col_set = [] }) flows in
    let closed =
      see_flows-IsClosed level flows (record { slots = []; row_set = []; col_set = [] }) tt in
    All-of_Elem _ (map (cell_of opts) (values acc.slots)) (λ c i.
      let (s, j, e) = Elem-map (cell_of opts) (values acc.slots) c i in
      let (k, l) = Elem-values acc.slots s j in
      let (r, q) = All-Elem (IsInside acc.row_set acc.col_set) acc.slots (k, s) closed l in
      rw e (Elem-sort_of _ acc.row_set s.row r, Elem-sort_of _ acc.col_set s.col q))
