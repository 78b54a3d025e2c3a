-- ===== src/Collector/Rollup/Hours.antt =====
-- Which hours are rolled up, and which raw buckets an hour reads.
use mathlib.Core.Path.{subst}
use nfm_dashboard.Prelude.{
  ℕ, zero, suc, ◌+◌, ◌-◌, ◌*◌, ◌/◌, ◌%◌, ◌≤◌, ◌<◌, List, [], ◌∷◌, not, ◌≡◌, inl, inr, refl, ap,
  filter, take, All, Elem, arith,
}
use nfm_dashboard.Prelude.Text.{Str, str_discrete}
use nfm_dashboard.Prelude.Set.{contains}
use nfm_dashboard.Collector.Dates.{Dates}
use nfm_dashboard.Collector.Rollup.{
  hour_ms, five_min_ms, close_grace_ms, grid, hour_bucket_of, texts, five_min_buckets_of_hour,
  missing_from, eligible_missing_hours,
}

-- Which hour is the newest closed one, counted from 1970.
abbrev pub newest_closed : ℕ → ℕ
newest_closed now = (now - close_grace_ms) / hour_ms - 1

module _ (dates : Dates) where
  -- The keys of `n` hours that end with the `i`th before the newest, newest first.
  pub hour_keys : ℕ → ℕ → ℕ → List Str
  hour_keys newest i zero = []
  hour_keys newest i (suc n) = dates.iso (newest - i * hour_ms) ∷ hour_keys newest (i + 1) n

  missing_from-filter :
      (done : List Str) (newest i rounds room : ℕ)
      → missing_from dates done newest i rounds room
        ≡ take room (filter (λ k. not (contains str_discrete k done)) (hour_keys newest i rounds))
  unfolding missing_from hour_keys
  missing_from-filter done newest i zero zero = refl
  missing_from-filter done newest i zero (suc room) = refl
  missing_from-filter done newest i (suc rounds) zero = refl
  missing_from-filter done newest i (suc rounds) (suc room) = ground (
    arith,
    missing_from-filter done newest (i + 1) rounds (suc room),
    missing_from-filter done newest (i + 1) rounds room,
  )

  -- The start of an hour that ended more than the grace period ago.
  abbrev pub IsClosedHour : ℕ → Str → Type 0
  IsClosedHour now k =
      (s : ℕ) × (k ≡ dates.iso s) × (s % hour_ms ≡ 0) × (s + hour_ms + close_grace_ms ≤ now)

  hour_keys-closed :
      (now q i n : ℕ)
      → q * hour_ms + hour_ms + close_grace_ms ≤ now
      → i + n ≤ q
      → All (IsClosedHour now) (hour_keys (q * hour_ms) i n)
  unfolding hour_keys
  hour_keys-closed now q i zero h k = tt
  hour_keys-closed now q i (suc n) h k = (
    (q * hour_ms - i * hour_ms, refl, omega arith, omega arith),
    hour_keys-closed now q (i + 1) n h (omega arith),
  )

  -- Where the clock is far enough from 1970, the hours of a cycle are the newest `max` of those that
  -- are not done, among the `lookback` last closed hours, newest first; and the hour after the
  -- newest of these is not closed yet.
  pub eligible_missing_hours_exact :
      (now lookback max : ℕ) (done : List Str)
      → (lookback + 1) * hour_ms + close_grace_ms ≤ now
      → let hours = hour_keys (newest_closed now * hour_ms) 0 lookback in
        (eligible_missing_hours dates now done lookback max
          ≡ take max (filter (λ k. not (contains str_discrete k done)) hours))
        × All (IsClosedHour now) hours
        × (now < newest_closed now * hour_ms + hour_ms + hour_ms + close_grace_ms)
  unfolding eligible_missing_hours
  eligible_missing_hours_exact now lookback max done h =
      let q = (now - close_grace_ms) / hour_ms in
      let e : q * hour_ms - hour_ms ≡ (q - 1) * hour_ms = omega arith in
      (
        rw e (missing_from-filter done ((q - 1) * hour_ms) 0 lookback max),
        hour_keys-closed now (q - 1) 0 lookback (omega arith) (omega arith),
        omega arith,
      )

  pub Elem-texts : (ts : List ℕ) (t : ℕ) → Elem t ts → Elem (dates.iso t) (texts dates ts)
  unfolding texts
  Elem-texts [] t m = absurd m
  Elem-texts (s ∷ ts) t (inl e) = inl (ap dates.iso e)
  Elem-texts (s ∷ ts) t (inr m) = inr (Elem-texts ts t m)

  All-texts :
      (P : Str → Type 0) (ts : List ℕ) → All (λ t. P (dates.iso t)) ts → All P (texts dates ts)
  unfolding texts
  All-texts P [] h = tt
  All-texts P (t ∷ ts) (p, h) = (p, All-texts P ts h)

  pub Elem-grid : (start step n i : ℕ) → i < n → Elem (start + i * step) (grid start step n)
  unfolding grid
  Elem-grid start step zero i h = absurd (omega arith)
  Elem-grid start step (suc n) zero h = inl (omega arith)
  Elem-grid start step (suc n) (suc i) h =
      let e : start + step + i * step ≡ start + suc i * step = omega arith in
      inr (
        subst (λ x. Elem x (grid (start + step) step n)) e
          (Elem-grid (start + step) step n i (omega arith)))

  -- A 5-minute bucket of the hour with the given number.
  abbrev pub IsBucketOf : ℕ → Str → Type 0
  IsBucketOf hour k = (b : ℕ) × (k ≡ dates.iso b) × (b % five_min_ms ≡ 0) × (b / hour_ms ≡ hour)

  IsBucketOf-grid :
      (start hour n : ℕ)
      → start % five_min_ms ≡ 0
      → hour * hour_ms ≤ start
      → start + n * five_min_ms ≤ hour * hour_ms + hour_ms
      → All (λ b. IsBucketOf hour (dates.iso b)) (grid start five_min_ms n)
  unfolding grid
  IsBucketOf-grid start hour zero p h k = tt
  IsBucketOf-grid start hour (suc n) p h k = (
    (start, refl, p, omega arith),
    IsBucketOf-grid (start + five_min_ms) hour n (omega arith) (omega arith) (omega arith),
  )

  -- The raw buckets that an hour reads hold the bucket of each time in the hour, and only 5-minute
  -- buckets of the hour.
  pub five_min_buckets_of_hour_cover :
      (t : ℕ)
      → Elem
          (dates.iso (t / five_min_ms * five_min_ms))
          (five_min_buckets_of_hour dates (hour_bucket_of dates t))
        × All (IsBucketOf (t / hour_ms)) (five_min_buckets_of_hour dates (hour_bucket_of dates t))
  unfolding five_min_buckets_of_hour hour_bucket_of
  five_min_buckets_of_hour_cover t =
      let start = t / hour_ms * hour_ms in
      let read : dates.parse (dates.iso start) ≡ start = dates.parse-iso start (omega arith) in
      let i = t % hour_ms / five_min_ms in
      let e : start + i * five_min_ms ≡ t / five_min_ms * five_min_ms = omega arith in
      rw read (
        subst (λ b. Elem (dates.iso b) (texts dates (grid start five_min_ms 12))) e
            (Elem-texts (grid start five_min_ms 12) (start + i * five_min_ms)
              (Elem-grid start five_min_ms 12 i (omega arith))),
        All-texts (IsBucketOf (t / hour_ms)) (grid start five_min_ms 12)
            (IsBucketOf-grid start (t / hour_ms) 12 (omega arith) (omega arith) (omega arith)),
      )
