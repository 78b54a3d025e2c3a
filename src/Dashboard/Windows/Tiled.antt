-- ===== src/Dashboard/Windows/Tiled.antt =====
-- The parts of a window follow each other without a gap or an overlap.
use mathlib.Core.Path.{subst}
use nfm_dashboard.Prelude.{
  ℕ, zero, suc, ◌+◌, ◌-◌, ◌*◌, ◌/◌, ◌≤◌, ◌<◌, List, [], ◌∷◌, ◌++◌, leb, Bool-cases, ◌≡◌, refl, sym,
  inl, inr, arith,
}
use nfm_dashboard.Collector.Dates.{Dates}
use nfm_dashboard.Dashboard.Windows.{
  Grain, raw, hourly, WindowPart, grain_switch_buckets, hour_ms, bucket_ms, hours_of, buckets_back,
  recent_buckets, closed_hour_buckets, parts_of, tail_count, window_plan,
}

abbrev pub ms_of : Grain → ℕ
ms_of raw = bucket_ms
ms_of hourly = hour_ms

-- The end of the newest bucket.
abbrev pub newest_end : ℕ → ℕ
newest_end now = now / bucket_ms * bucket_ms + bucket_ms

module _ (dates : Dates) where
  -- The parts, newest first, reach from the time `end` back to `start`: each ends where the one
  -- before it starts.
  abbrev pub IsTiled : ℕ → List WindowPart → ℕ → Type 0
  IsTiled end [] start = end ≡ start
  IsTiled end (p ∷ ps) start =
      (s : ℕ) × (p.bucket ≡ dates.iso s) × (s + ms_of p.grain ≡ end) × IsTiled s ps start

  IsTiled-append :
      (end middle start : ℕ) (ps qs : List WindowPart)
      → IsTiled end ps middle
      → IsTiled middle qs start
      → IsTiled end (ps ++ qs) start
  IsTiled-append end middle start [] qs h k = rw h k
  IsTiled-append end middle start (p ∷ ps) qs (s, b, e, h) k =
      (s, b, e, IsTiled-append s middle start ps qs h k)

  pub buckets_back-IsTiled :
      (grain : Grain) (newest end n : ℕ)
      → n * ms_of grain ≤ newest
      → newest + ms_of grain ≡ end
      → IsTiled end
          (parts_of grain (buckets_back dates newest (ms_of grain) n))
          (end - n * ms_of grain)
  unfolding buckets_back
  buckets_back-IsTiled grain newest end zero h e = ground arith
  buckets_back-IsTiled raw newest end (suc n) h e =
      let rest =
        buckets_back-IsTiled raw (newest - bucket_ms) newest n (omega arith) (omega arith) in
      let same : newest - n * bucket_ms ≡ end - suc n * bucket_ms = omega arith in
      (newest, refl, e, rw (sym same) rest)
  buckets_back-IsTiled hourly newest end (suc n) h e =
      let rest =
        buckets_back-IsTiled hourly (newest - hour_ms) newest n (omega arith) (omega arith) in
      let same : newest - n * hour_ms ≡ end - suc n * hour_ms = omega arith in
      (newest, refl, e, rw (sym same) rest)

  recent-IsTiled :
      (n now : ℕ)
      → n * bucket_ms ≤ now / bucket_ms * bucket_ms
      → IsTiled
          (newest_end now)
          (parts_of raw (recent_buckets dates n now))
          (newest_end now - n * bucket_ms)
  recent-IsTiled n now h =
      buckets_back-IsTiled raw (now / bucket_ms * bucket_ms) (newest_end now) n h refl

  -- Where the clock is far enough from 1970, the parts of a window follow each other without gap or
  -- overlap, from the end of the newest bucket back for exactly `window_seconds`.
  pub window_plan-IsTiled :
      (n now : ℕ)
      → (n + 36) * bucket_ms ≤ now
      → let plan = window_plan dates n now in
        IsTiled (newest_end now) plan.parts (newest_end now - plan.window_seconds * 1000)
  unfolding window_plan
  window_plan-IsTiled n now h = elim (Bool-cases (leb n grain_switch_buckets)) [
    | inl e ↦
        let same : newest_end now - n * bucket_ms ≡ newest_end now - n * 300 * 1000 = omega arith in
        rw (e, window_plan)
          (subst (IsTiled (newest_end now) (parts_of raw (recent_buckets dates n now))) same
            (recent-IsTiled n now (omega arith)))
    | inr e ↦
        let big : 36 < n = ground arith in
        let hours = hours_of n in
        let start = now / hour_ms * hour_ms in
        let tail = tail_count now + 12 in
        let joint : newest_end now - tail * bucket_ms ≡ start - hour_ms = omega arith in
        let total : start - hour_ms - (hours - 1) * hour_ms
            ≡ newest_end now - ((hours - 1) * 3600 + tail * 300) * 1000 =
          omega arith in
        rw (e, window_plan)
          (IsTiled-append (newest_end now) (start - hour_ms) _ _ _
            (subst (IsTiled (newest_end now) (parts_of raw (recent_buckets dates tail now))) joint
              (recent-IsTiled tail now (omega arith)))
            (subst
              (IsTiled (start - hour_ms)
                (parts_of hourly (closed_hour_buckets dates (hours - 1) (start - hour_ms))))
              total
              (buckets_back-IsTiled hourly (start - hour_ms - hour_ms) (start - hour_ms) (hours - 1)
                (omega arith) (omega arith))))
  ]
