-- ===== src/Dashboard/Movers.antt =====
-- Which entities changed most between two windows: app/src/lib/analytics/movers.ts. `localeCompare`
-- is a parameter; the percentage of a change is kept as its two values.
pub mod Sums
pub mod Listed
use nfm_dashboard.Prelude.{
  ℕ, ◌+◌, ◌-◌, Option, none, some, List, [], ◌∷◌, ◌++◌, take, filter, Bool, true, false, not, ◌&&◌,
  ◌||◌, ltb, ◌==◌, ite, if◌then◌else◌, or_else,
}
use nfm_dashboard.Prelude.Text.{Str, str_discrete}
use nfm_dashboard.Prelude.Map.{get, put, keys, values}
use nfm_dashboard.Prelude.Set.{to_set}
use nfm_dashboard.Prelude.Sort.{sort}
use nfm_dashboard.Collector.Types.{
  MetricName, MetricName-discrete, FlowEdge, data_transferred, retransmissions, timeouts,
}
use nfm_dashboard.Dashboard.Aggregate.{entity_key, service_kind}

abbrev pub default_top_n : ℕ
default_top_n = 8

pub data MoverDirection : Type 0 where
  up down flat : MoverDirection

-- `delta` is the change in percent of `prior`, given as the pair of its values; none where there is
-- no baseline.
pub record Mover : Type 0 where
  pub key : Str
  pub metric : MetricName
  pub current : ℕ
  pub prior : ℕ
  pub delta : Option (ℕ × ℕ)
  pub direction : MoverDirection
  pub went_silent : Bool

pub record MoversResult : Type 0 where
  pub data_transferred : List Mover
  pub retransmissions : List Mover
  pub timeouts : List Mover
  pub silent : List Mover

abbrev pub entities : FlowEdge ℕ → List Str
entities f = to_set str_discrete (entity_key f.a service_kind ∷ entity_key f.b service_kind ∷ [])

-- The inner loop: the value is added for each of the keys.
unfoldable pub add_for : ℕ → List Str → List (Str × ℕ) → List (Str × ℕ)
add_for value [] acc = acc
add_for value (key ∷ ks) acc =
    add_for value ks (put str_discrete key (or_else (get str_discrete key acc) 0 + value) acc)

unfoldable pub sums_from : MetricName → List (FlowEdge ℕ) → List (Str × ℕ) → List (Str × ℕ)
unfolding add_for
sums_from metric [] acc = acc
sums_from metric (f ∷ flows) acc =
    sums_from metric flows
      (ite (MetricName-discrete f.metric metric) (add_for f.value (entities f) acc) acc)

abbrev pub sums_by_entity : List (FlowEdge ℕ) → MetricName → List (Str × ℕ)
sums_by_entity flows metric = sums_from metric flows []

abbrev pub direction_of : ℕ → ℕ → MoverDirection
direction_of c p = if ltb p c then up else if ltb c p then down else flat

abbrev pub mover_of : MetricName → Str → ℕ → ℕ → Mover
mover_of metric key c p = record {
  key = key;
  metric = metric;
  current = c;
  prior = p;
  delta = if p == 0 then none else some (c, p);
  direction = direction_of c p;
  went_silent = ltb 0 p && (c == 0);
}

abbrev pub value_at : Str → List (Str × ℕ) → ℕ
value_at key sums = or_else (get str_discrete key sums) 0

unfoldable pub movers_of : MetricName → List (Str × ℕ) → List (Str × ℕ) → List Str → List Mover
movers_of metric cur pri [] = []
movers_of metric cur pri (key ∷ ks) =
    let c = value_at key cur in
    let p = value_at key pri in
    let rest = movers_of metric cur pri ks in
    if (c == 0) && (p == 0) then rest else mover_of metric key c p ∷ rest

-- `Math.abs(m.current - m.prior)`
abbrev pub change : Mover → ℕ
change m = (m.current - m.prior) + (m.prior - m.current)

-- One round of the two loops over the lists.
unfoldable pub keep_silent : List (Str × Mover) → Mover → List (Str × Mover)
keep_silent by_key m =
    let set = put str_discrete m.key m by_key in
    if m.went_silent
    then elim (get str_discrete m.key by_key) [
      | none ↦ set
      | some kept ↦ if ltb kept.prior m.prior then set else by_key
    ]
    else by_key

unfoldable pub silent_from : List Mover → List (Str × Mover) → List (Str × Mover)
unfolding keep_silent
silent_from [] by_key = by_key
silent_from (m ∷ ms) by_key = silent_from ms (keep_silent by_key m)

module _ (locale_lt : Str → Str → Bool) where
  unfoldable pub greater_change : Mover → Mover → Bool
  greater_change x y =
      ltb (change y) (change x)
      || ((change x == change y)
          && (ltb y.current x.current || ((x.current == y.current) && locale_lt x.key y.key)))

  unfoldable pub movers_for : List (FlowEdge ℕ) → List (FlowEdge ℕ) → MetricName → ℕ → List Mover
  unfolding sums_from movers_of greater_change
  movers_for current prior metric top_n =
      let cur = sums_by_entity current metric in
      let pri = sums_by_entity prior metric in
      take top_n (
        sort greater_change (movers_of metric cur pri (to_set str_discrete (keys cur ++ keys pri))))

  unfoldable pub greater_prior : Mover → Mover → Bool
  greater_prior x y = ltb y.prior x.prior || ((x.prior == y.prior) && locale_lt x.key y.key)

  unfoldable pub silent_movers : List Mover → List Mover
  unfolding silent_from greater_prior
  silent_movers ms = sort greater_prior (values (silent_from ms []))

  unfoldable pub movers_lens : List (FlowEdge ℕ) → List (FlowEdge ℕ) → Option ℕ → MoversResult
  unfolding movers_for silent_movers
  movers_lens current prior top_n =
      let n : ℕ = elim top_n [
        | none ↦ default_top_n
        | some n ↦ if n == 0 then default_top_n else n
      ] in
      let m1 = movers_for current prior data_transferred n in
      let m2 = movers_for current prior retransmissions n in
      let m3 = movers_for current prior timeouts n in
      record {
        data_transferred = m1;
        retransmissions = m2;
        timeouts = m3;
        silent = silent_movers (m1 ++ (m2 ++ m3));
      }
