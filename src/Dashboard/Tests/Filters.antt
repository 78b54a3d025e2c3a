-- ===== src/Dashboard/Tests/Filters.antt =====
-- The filters and the recent paths.
use nfm_dashboard.Prelude.{
  ℕ, ◌≤◌, All, Elem, ◌⊎◌, ◌↔◌, arith, some, List, [], ◌∷◌, filter, Bool, true, ◌≡◌, refl,
}
use nfm_dashboard.Prelude.Text.{codes}
use nfm_dashboard.Prelude.Ratio.{Ratio, whole}
use nfm_dashboard.Collector.Types.{FlowEdge}
use nfm_dashboard.Dashboard.Filters.{
  days_7, buckets_from, max_buckets, range_to_buckets, apply_flow_filters,
}
use nfm_dashboard.Dashboard.Filters.Bounds.{
  buckets_from_bounded, IsAllowed, apply_flow_filters-IsAllowed,
}
use nfm_dashboard.Dashboard.RecentPaths.{RecentPath, IsRecent, push_recent, push_recent-IsRecent}
use nfm_dashboard.Dashboard.Tests.Movers.{flow}

abbrev half : Ratio
half = record { num = 1; den = 2 }

half_is_default : buckets_from (some half) ≡ 12
unfolding buckets_from
half_is_default = refl

buckets_from_bounded_example :
    (1 ≤ buckets_from (some half))
    × (buckets_from (some half) ≤ max_buckets)
    × (buckets_from (some (whole (range_to_buckets days_7))) ≡ range_to_buckets days_7)
buckets_from_bounded_example = buckets_from_bounded (some half) days_7

abbrev flows : List (FlowEdge ℕ)
flows = flow 1 ∷ flow 2 ∷ []

apply_flow_filters-IsAllowed_example :
    (q : FlowEdge ℕ → Bool) × (apply_flow_filters flows (some (codes "web")) (some (codes "all"))
      ≡ filter q flows)
    × ((f : FlowEdge ℕ) → (q f ≡ true) ↔ IsAllowed (some (codes "web")) (some (codes "all")) f)
apply_flow_filters-IsAllowed_example =
    apply_flow_filters-IsAllowed flows (some (codes "web")) (some (codes "all"))

abbrev path_of : ℕ → RecentPath
path_of n = record { edge_id = n ∷ []; label = codes "p"; ts = n }

abbrev visited : List RecentPath
visited = path_of 1 ∷ path_of 2 ∷ []

push_recent-IsRecent_example :
    IsRecent 2 (push_recent visited (path_of 2) 2)
    × Elem (path_of 2) (push_recent visited (path_of 2) 2)
    × All (λ r. (r ≡ path_of 2) ⊎ Elem r visited) (push_recent visited (path_of 2) 2)
push_recent-IsRecent_example =
    push_recent-IsRecent visited (path_of 2) 1 (ground arith, (λ m. m, tt))
