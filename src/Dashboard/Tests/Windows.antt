-- ===== src/Dashboard/Tests/Windows.antt =====
-- The windows of seven days and of an hour.
use nfm_dashboard.Prelude.{ℕ, ◌+◌, ◌-◌, ◌*◌, ◌≤◌, length, ◌≡◌, refl, [], ◌∷◌, arith}
use nfm_dashboard.Prelude.Text.{Str}
use nfm_dashboard.Collector.Dates.{Dates}
use nfm_dashboard.Dashboard.Windows.{bucket_ms, window_plan, window_pair_plan, buckets_back}
use nfm_dashboard.Dashboard.Windows.Tiled.{IsTiled, newest_end, window_plan-IsTiled}
use nfm_dashboard.Dashboard.Windows.Pair.{IsPair, window_pair_plan-IsPair}

abbrev first_unit : Str → ℕ
first_unit [] = 0
first_unit (t ∷ s) = t

-- Times written as one code unit.
abbrev unit_dates : Dates
unit_dates = record { iso = λ t. t ∷ []; parse = first_unit; parse-iso = λ t h. refl }

abbrev now : ℕ
now = 1_000_000 * bucket_ms + 17

day_parts : length (window_plan unit_dates 288 now).parts ≡ 40
unfolding window_plan buckets_back
day_parts = refl

window_plan-IsTiled_example :
    IsTiled unit_dates
      (newest_end now)
      (window_plan unit_dates 288 now).parts
      (newest_end now - (window_plan unit_dates 288 now).window_seconds * 1000)
window_plan-IsTiled_example = window_plan-IsTiled unit_dates 288 now (omega arith)

window_pair_plan-IsPair_example :
    (end : ℕ) × (end ≤ newest_end now) × IsPair unit_dates end (window_pair_plan unit_dates 288 now)
window_pair_plan-IsPair_example = window_pair_plan-IsPair unit_dates 288 now (omega arith)
