-- ===== src/Dashboard/Tests/Settings.antt =====
-- A text of settings that is a list of numbers, and two changes with it.
use nfm_dashboard.Prelude.{ℕ, zero, suc, some, List, [], ◌∷◌, true, false, ◌≡◌, refl}
use nfm_dashboard.Prelude.Text.{Str, codes}
use nfm_dashboard.Prelude.Ratio.{whole}
use nfm_dashboard.Dashboard.Filters.{TimeRange, minutes_15, hour_1, hours_3, hours_24, days_7}
use nfm_dashboard.Dashboard.Settings.{
  Number, finite, infinite, Parsed, throws, object, AppSettings, Change, set_cost_per_gb,
  set_monitor_filter, hydrate, changes,
}
use nfm_dashboard.Dashboard.Settings.Reload.{IsJson, IsSound, entries_of, hydrate-changes}

abbrev range_code : TimeRange → ℕ
range_code minutes_15 = 0
range_code hour_1 = 1
range_code hours_3 = 2
range_code hours_24 = 3
range_code days_7 = 4

abbrev range_at : ℕ → TimeRange
range_at zero = minutes_15
range_at (suc zero) = hour_1
range_at (suc (suc zero)) = hours_3
range_at (suc (suc (suc zero))) = hours_24
range_at _ = days_7

range_at-range_code : (r : TimeRange) → range_at (range_code r) ≡ r
range_at-range_code minutes_15 = refl
range_at-range_code hour_1 = refl
range_at-range_code hours_3 = refl
range_at-range_code hours_24 = refl
range_at-range_code days_7 = refl

abbrev sign_of : Number → ℕ
sign_of (finite false r) = 0
sign_of (finite true r) = 1
sign_of (infinite false) = 2
sign_of (infinite true) = 3

abbrev num_of : Number → ℕ
num_of (finite s r) = r.num
num_of (infinite s) = 0

abbrev den_of : Number → ℕ
den_of (finite s r) = r.den
den_of (infinite s) = 0

abbrev number_at : ℕ → ℕ → ℕ → Number
number_at zero n d = finite false (record { num = n; den = d })
number_at (suc zero) n d = finite true (record { num = n; den = d })
number_at (suc (suc zero)) n d = infinite false
number_at _ n d = infinite true

number_at-number : (n : Number) → number_at (sign_of n) (num_of n) (den_of n) ≡ n
number_at-number (finite false r) = refl
number_at-number (finite true r) = refl
number_at-number (infinite false) = refl
number_at-number (infinite true) = refl

abbrev stringify : AppSettings → Str
stringify s =
    range_code s.default_range
    ∷ sign_of s.retrans_threshold
    ∷ num_of s.retrans_threshold
    ∷ den_of s.retrans_threshold
    ∷ sign_of s.timeout_threshold
    ∷ num_of s.timeout_threshold
    ∷ den_of s.timeout_threshold
    ∷ sign_of s.cost_per_gb
    ∷ num_of s.cost_per_gb
    ∷ den_of s.cost_per_gb
    ∷ sign_of s.anomaly_sigma
    ∷ num_of s.anomaly_sigma
    ∷ den_of s.anomaly_sigma
    ∷ s.monitor_filter

abbrev parse : Str → Parsed
parse (r ∷ a ∷ b ∷ c ∷ d ∷ e ∷ f ∷ g ∷ h ∷ i ∷ j ∷ k ∷ l ∷ monitor) = object (
    entries_of (record {
      default_range = range_at r;
      retrans_threshold = number_at a b c;
      timeout_threshold = number_at d e f;
      cost_per_gb = number_at g h i;
      anomaly_sigma = number_at j k l;
      monitor_filter = monitor;
    }))
parse _ = throws

stringify-IsJson : IsJson parse stringify
stringify-IsJson = record {
  nonempty = λ s e. cc;
  parses = λ s h.
      rw
        (
          range_at-range_code s.default_range,
          number_at-number s.retrans_threshold,
          number_at-number s.timeout_threshold,
          number_at-number s.cost_per_gb,
          number_at-number s.anomaly_sigma,
        )
        refl;
}

abbrev two_changes : List Change
two_changes = set_cost_per_gb (finite false (whole 2)) ∷ set_monitor_filter (codes "east") ∷ []

hydrate-changes_example :
    let last = changes parse stringify two_changes (hydrate parse stringify (some (codes "{"))) in
    (hydrate parse stringify last.stored ≡ last) × IsSound last.settings
hydrate-changes_example =
    hydrate-changes parse stringify (some (codes "{")) two_changes stringify-IsJson
      (refl, ((λ e. cc), tt))
