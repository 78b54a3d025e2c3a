-- ===== src/Dashboard/Windows/Pair.antt =====
-- The two windows of a pair are adjacent and of the same length.
use mathlib.Core.Path.{subst}
use nfm_dashboard.Prelude.{
  ℕ, zero, suc, ◌+◌, ◌-◌, ◌*◌, ◌/◌, ◌≤◌, ◌∷◌, take, drop, leb, Bool-cases, ◌≡◌, refl, sym, ap, inl,
  inr, arith,
}
use nfm_dashboard.Collector.Dates.{Dates}
use nfm_dashboard.Dashboard.Windows.{
  Grain, raw, hourly, WindowPair, grain_switch_buckets, hour_ms, bucket_ms, hours_of, buckets_back,
  parts_of, window_pair_plan,
}
use nfm_dashboard.Dashboard.Windows.Tiled.{ms_of, IsTiled, newest_end, buckets_back-IsTiled}

module _ (dates : Dates) where
  take-buckets_back :
      (newest step n m : ℕ)
      → take n (buckets_back dates newest step (n + m)) ≡ buckets_back dates newest step n
  unfolding buckets_back
  take-buckets_back newest step zero m = refl
  take-buckets_back newest step (suc n) m =
      let e : suc n + m ≡ suc (n + m) = omega arith in
      rw e (ap (◌∷◌ (dates.iso newest)) (take-buckets_back (newest - step) step n m))

  drop-buckets_back :
      (newest step n m : ℕ)
      → drop n (buckets_back dates newest step (n + m))
        ≡ buckets_back dates (newest - n * step) step m
  unfolding buckets_back
  drop-buckets_back newest step zero m =
      let e : newest - 0 * step ≡ newest = ground arith in
      let f : 0 + m ≡ m = omega arith in rw (e, f) refl
  drop-buckets_back newest step (suc n) m =
      let e : suc n + m ≡ suc (n + m) = omega arith in
      let f : newest - step - n * step ≡ newest - suc n * step = ground arith in
      rw (e, sym f) (drop-buckets_back (newest - step) step n m)

  -- The current window reaches from `end` back for the window's seconds, the prior window from there
  -- for as long again.
  abbrev pub IsPair : ℕ → WindowPair → Type 0
  IsPair end pair =
      let span = pair.window_seconds * 1000 in
      IsTiled dates end pair.current (end - span)
      × IsTiled dates (end - span) pair.prior (end - 2 * span)

  halves-IsTiled :
      (grain : Grain) (newest n span : ℕ)
      → (n + n) * ms_of grain ≤ newest
      → n * ms_of grain ≡ span
      → let bs = buckets_back dates newest (ms_of grain) (n + n) in
        let end = newest + ms_of grain in
        IsTiled dates end (parts_of grain (take n bs)) (end - span)
        × IsTiled dates (end - span) (parts_of grain (drop n bs)) (end - 2 * span)
  halves-IsTiled grain newest n span h e =
      let step = ms_of grain in
      let end = newest + step in
      let first =
        buckets_back-IsTiled dates grain newest end n (ground (arith, halves n step)) refl in
      let second =
        buckets_back-IsTiled dates grain (newest - n * step) (end - n * step) n
          (ground (arith, halves n step)) (ground (arith, halves n step)) in
      let last : end - n * step - n * step ≡ end - 2 * span = ground (arith, halves n step) in
      rw (take-buckets_back newest step n n, drop-buckets_back newest step n n, sym e)
        (
          first,
          subst
              (IsTiled dates (end - n * step)
                (parts_of grain (buckets_back dates (newest - n * step) step n)))
              (ground arith) second,
        )
    where
      halves : (n step : ℕ) → (n + n) * step ≡ n * step + n * step
      halves n step = grind arith

  -- Where the clock is far enough from 1970, both windows of a pair are without gap or overlap, the
  -- prior one ends where the current one starts, both span exactly `window_seconds`, and the current
  -- one does not reach beyond the newest bucket.
  pub window_pair_plan-IsPair :
      (n now : ℕ)
      → (2 * n + 60) * bucket_ms ≤ now
      → (end : ℕ) × (end ≤ newest_end now) × IsPair end (window_pair_plan dates n now)
  unfolding window_pair_plan
  window_pair_plan-IsPair n now h = elim (Bool-cases (leb n grain_switch_buckets)) [
    | inl e ↦
        let newest = now / bucket_ms * bucket_ms in
        let twice : 2 * n ≡ n + n = omega arith in
        (
          newest_end now,
          omega arith,
          rw (e, window_pair_plan, twice)
              (halves-IsTiled raw newest n (n * 300 * 1000) (omega arith) (omega arith)),
        )
    | inr e ↦
        let hours = hours_of n in
        let newest = now / hour_ms * hour_ms - hour_ms - hour_ms in
        let twice : 2 * hours ≡ hours + hours = omega arith in
        (
          newest + hour_ms,
          omega arith,
          rw (e, window_pair_plan, twice)
              (halves-IsTiled hourly newest hours (hours * 3600 * 1000) (omega arith)
                (omega arith)),
        )
  ]
