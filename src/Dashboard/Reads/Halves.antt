-- ===== src/Dashboard/Reads/Halves.antt =====
-- The pair of windows has each half's flows, and the history is in the order of time.
use mathlib.Core.List.{map-append}
use nfm_dashboard.Prelude.{
  ℕ, zero, suc, ◌+◌, List, [], ◌∷◌, ◌++◌, map, take, drop, filter, length, length-map, true, false,
  not, ite, ◌≡◌, ◌≢◌, refl, sym, ap, All, All-take, if_pos, arith,
}
use nfm_dashboard.Prelude.Text.{Str, codes, str_discrete}
use nfm_dashboard.Collector.Types.{FlowEdge}
use nfm_dashboard.Collector.Dates.{Dates}
use nfm_dashboard.Dashboard.Windows.{window_pair_plan}
use nfm_dashboard.Dashboard.Reads.{
  CollectionStatus, reverse_onto, get_collection_history, query_part, fetch_parts, flat,
  fetch_window_pair,
}

take_append : {A : Type 0} (xs ys : List A) → take (length xs) (xs ++ ys) ≡ xs
take_append [] ys = refl
take_append (x ∷ xs) ys = ap (◌∷◌ x) (take_append xs ys)

drop_append : {A : Type 0} (xs ys : List A) → drop (length xs) (xs ++ ys) ≡ ys
drop_append [] ys = refl
drop_append (x ∷ xs) ys = drop_append xs ys

-- Each half of the pair has the flows of exactly the parts of that half of the plan, though the parts
-- of both are read together.
pub fetch_window_pair_halves :
    (dates : Dates) (table : Str → List (List (FlowEdge ℕ))) (monitors : List Str) (n now : ℕ)
    → let plan = window_pair_plan dates n now in
      fetch_window_pair dates table monitors n now ≡ (
        flat (map (query_part table monitors) plan.current),
        flat (map (query_part table monitors) plan.prior),
      )
unfolding fetch_window_pair fetch_parts
fetch_window_pair_halves dates table monitors n now =
    let plan = window_pair_plan dates n now in
    let f = query_part table monitors in
    rw (map-append f plan.current plan.prior, sym (length-map f plan.current))
      (rw
        (
          take_append (map f plan.current) (map f plan.prior),
          drop_append (map f plan.current) (map f plan.prior),
        )
        refl)

without_latest :
    (cycles : List CollectionStatus)
    → All (λ s. s.cycle_ts ≢ codes "latest") cycles
    → filter (λ s. not (ite (str_discrete s.cycle_ts (codes "latest")) true false)) cycles ≡ cycles
without_latest [] h = refl
without_latest (s ∷ cycles) (h, rest) = ground (arith, without_latest cycles rest)

take-take : {A : Type 0} (n : ℕ) (xs : List A) → take n (take n xs) ≡ take n xs
take-take zero xs = refl
take-take (suc n) [] = refl
take-take (suc n) (x ∷ xs) = ap (◌∷◌ x) (take-take n xs)

-- Where the rows are the pointer to the latest cycle and then the cycles, the last one first, the
-- history is the last `n` cycles in the order of time, though the query is limited to `n + 1` rows.
pub get_collection_history_last :
    (n : ℕ) (latest : CollectionStatus) (cycles : List CollectionStatus)
    → latest.cycle_ts ≡ codes "latest"
    → All (λ s. s.cycle_ts ≢ codes "latest") cycles
    → get_collection_history n (latest ∷ cycles) ≡ reverse_onto (take n cycles) []
unfolding get_collection_history
get_collection_history_last n latest cycles e h =
    let same : n + 1 ≡ suc n = omega arith in
    let kept =
      without_latest (take n cycles) (All-take (λ s. s.cycle_ts ≢ codes "latest") n cycles h) in
    let p : ite (str_discrete latest.cycle_ts (codes "latest")) true false ≡ true =
      if_pos (str_discrete latest.cycle_ts (codes "latest")) e true false in
    rw (same, p, kept, take-take n cycles) refl
