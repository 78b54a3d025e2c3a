-- ===== src/Dashboard/Movers/Listed.antt =====
-- The movers of a metric: which entities are listed and with what values.
use nfm_dashboard.Prelude.{ℕ, ◌<◌, List, ◌++◌, Bool, true, ◌≡◌, ◌↔◌}
use nfm_dashboard.Prelude.Text.{Str, str_discrete}
use nfm_dashboard.Prelude.Map.{keys}
use nfm_dashboard.Prelude.Set.{to_set}
use nfm_dashboard.Collector.Types.{MetricName, FlowEdge}
use nfm_dashboard.Dashboard.Movers.{Mover, sums_by_entity, value_at, movers_of}
use nfm_dashboard.Dashboard.Movers.Sums.{total}

module _ (metric : MetricName) (cur pri : List (Str × ℕ)) where
  -- A mover has the values of its entity, and is silent where only the current one is 0.
  IsListed : Mover → Type 0
  IsListed m =
      (m.current ≡ value_at m.key cur)
      × (m.prior ≡ value_at m.key pri)
      × ((m.went_silent ≡ true) ↔ ((0 < m.prior) × (m.current ≡ 0)))

-- The entities that have an entry in either window.
entity_keys : List (Str × ℕ) → List (Str × ℕ) → List Str
entity_keys cur pri = to_set str_discrete (keys cur ++ keys pri)

-- What a mover says of the flows of the two windows.
abbrev pub IsMover : MetricName → List (FlowEdge ℕ) → List (FlowEdge ℕ) → Mover → Type 0
IsMover metric current prior m =
    (m.current ≡ total metric m.key current)
    × (m.prior ≡ total metric m.key prior)
    × ((m.went_silent ≡ true) ↔ ((0 < m.prior) × (m.current ≡ 0)))

module _ (locale_lt : Str → Str → Bool) (current prior : List (FlowEdge ℕ)) (metric : MetricName)
    (n : ℕ) where
  cur : List (Str × ℕ)
  cur = sums_by_entity current metric

  pri : List (Str × ℕ)
  pri = sums_by_entity prior metric

  every : List Mover
  every = movers_of metric cur pri (entity_keys cur pri)
