-- ===== src/Dashboard/Windows.antt =====
-- Which buckets a window of flows is read from: recentBuckets, windowPlan and windowPairPlan of
-- app/src/lib/ddb.ts. The clock is an argument.
pub mod Tiled
pub mod Pair
use nfm_dashboard.Prelude.{
  ℕ, zero, suc, ◌+◌, ◌-◌, ◌*◌, ◌/◌, List, [], ◌∷◌, ◌++◌, map, take, drop, leb, if◌then◌else◌,
}
use nfm_dashboard.Prelude.Text.{Str}
use nfm_dashboard.Collector.Dates.{Dates}

pub data Grain : Type 0 where
  raw hourly : Grain

pub record WindowPart : Type 0 where
  pub grain : Grain
  pub bucket : Str

pub record WindowPlan : Type 0 where
  pub parts : List WindowPart
  pub buckets : List Str
  pub window_seconds : ℕ

pub record WindowPair : Type 0 where
  pub current : List WindowPart
  pub prior : List WindowPart
  pub window_seconds : ℕ

abbrev pub grain_switch_buckets : ℕ
grain_switch_buckets = 36

abbrev pub hour_ms : ℕ
hour_ms = 3_600_000

abbrev pub bucket_ms : ℕ
bucket_ms = 300_000

-- `Math.round(n / 12)`
abbrev pub hours_of : ℕ → ℕ
hours_of n = (n + 6) / 12

abbrev pub parts_of : Grain → List Str → List WindowPart
parts_of grain = map (λ b. record { grain = grain; bucket = b })

-- How many buckets of the open hour have begun.
abbrev pub tail_count : ℕ → ℕ
tail_count now = (now / bucket_ms * bucket_ms - now / hour_ms * hour_ms) / bucket_ms + 1

module _ (dates : Dates) where
  -- `Array.from({ length: n }, (_, i) => iso(newest - i * step))`
  unfoldable pub buckets_back : ℕ → ℕ → ℕ → List Str
  buckets_back newest step zero = []
  buckets_back newest step (suc n) = dates.iso newest ∷ buckets_back (newest - step) step n

  abbrev pub recent_buckets : ℕ → ℕ → List Str
  recent_buckets n now = buckets_back (now / bucket_ms * bucket_ms) bucket_ms n

  abbrev pub closed_hour_buckets : ℕ → ℕ → List Str
  closed_hour_buckets hours_back open_hour_start_ms =
      buckets_back (open_hour_start_ms - hour_ms) hour_ms hours_back

  unfoldable pub window_plan : ℕ → ℕ → WindowPlan
  unfolding buckets_back
  window_plan n now =
      let small = recent_buckets n now in
      let hours = hours_of n in
      let open_hour_start = now / hour_ms * hour_ms in
      let tail = recent_buckets (tail_count now + 12) now in
      let closed = closed_hour_buckets (hours - 1) (open_hour_start - hour_ms) in
      let parts = parts_of raw tail ++ parts_of hourly closed in
      if leb n grain_switch_buckets
      then record { parts = parts_of raw small; buckets = small; window_seconds = n * 300 }
      else record {
        parts = parts;
        buckets = map (λ p. p.bucket) parts;
        window_seconds = (hours - 1) * 3600 + (tail_count now + 12) * 300;
      }

  unfoldable pub window_pair_plan : ℕ → ℕ → WindowPair
  unfolding buckets_back
  window_pair_plan n now =
      let buckets = recent_buckets (2 * n) now in
      let hours = hours_of n in
      let open_hour_start = now / hour_ms * hour_ms in
      let closed = closed_hour_buckets (2 * hours) (open_hour_start - hour_ms) in
      if leb n grain_switch_buckets
      then record {
        current = parts_of raw (take n buckets);
        prior = parts_of raw (drop n buckets);
        window_seconds = n * 300;
      }
      else record {
        current = parts_of hourly (take hours closed);
        prior = parts_of hourly (drop hours closed);
        window_seconds = hours * 3600;
      }
