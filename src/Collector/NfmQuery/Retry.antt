-- ===== src/Collector/NfmQuery/Retry.antt =====
-- How a retried call ends.
use nfm_dashboard.Prelude.{
  ℕ, zero, suc, ◌+◌, ◌-◌, ◌≤◌, ◌<◌, Option, none, some, ◌≡◌, ◌⊎◌, inl, inr, refl, sym, arith,
}
use nfm_dashboard.Collector.NfmQuery.{
  Answer, ok, throttled, error, CycleStats, retry_from, with_retry,
}

-- The attempt with number `i` decides the call, after attempts that were all throttled.
pub record IsDecidedAt {A : Type 0} (answers : ℕ → Answer A) (stats : CycleStats) (first last i : ℕ)
    (result : Option A × CycleStats) : Type 0 where
  pub within : i ≤ last
  pub earlier : (j : ℕ) → first ≤ j → j < i → answers j ≡ throttled
  pub counted : result.1 ≡ record stats { throttled = stats.throttled + (i - first) }
  pub outcome :
      ((a : A) × (answers i ≡ ok a) × (result.0 ≡ some a))
      ⊎ ((result.0 ≡ none) × ((answers i ≡ error) ⊎ ((answers i ≡ throttled) × (i ≡ last))))

Answer-cases :
    {A : Type 0} (x : Answer A) → ((a : A) × (x ≡ ok a)) ⊎ ((x ≡ throttled) ⊎ (x ≡ error))
Answer-cases (ok a) = inl (a, refl)
Answer-cases throttled = inr (inl refl)
Answer-cases error = inr (inr refl)

le_cases : (i j : ℕ) → i ≤ j → (i ≡ j) ⊎ (i + 1 ≤ j)
le_cases i j h = ground arith

retry_from-IsDecidedAt :
    {A : Type 0} (left i : ℕ) (answers : ℕ → Answer A) (s : CycleStats)
    → (n : ℕ) × (i ≤ n) × IsDecidedAt answers s i (i + left) n (retry_from left i answers s)
unfolding retry_from
retry_from-IsDecidedAt zero i answers s = (
  i,
  omega arith,
  elim (Answer-cases (answers i)) [
    | inl (a, e) ↦ record {
      within = omega arith;
      earlier = λ j h k. absurd (omega arith);
      counted = ground arith;
      outcome = inl (a, e, ground arith);
    }
    | inr (inl e) ↦ record {
      within = omega arith;
      earlier = λ j h k. absurd (omega arith);
      counted = ground arith;
      outcome = inr (ground arith, inr (e, omega arith));
    }
    | inr (inr e) ↦ record {
      within = omega arith;
      earlier = λ j h k. absurd (omega arith);
      counted = ground arith;
      outcome = inr (ground arith, inl e);
    }
  ],
)
retry_from-IsDecidedAt (suc left) i answers s = elim (Answer-cases (answers i)) [
  | inl (a, e) ↦ (
    i,
    omega arith,
    record {
      within = omega arith;
      earlier = λ j h k. absurd (omega arith);
      counted = ground arith;
      outcome = inl (a, e, ground arith);
    },
  )
  | inr (inl e) ↦
      let s' = record s { throttled = s.throttled + 1 } in
      let (n, later, d) = retry_from-IsDecidedAt left (i + 1) answers s' in
      let step : retry_from (suc left) i answers s ≡ retry_from left (i + 1) answers s' =
        ground arith in
      (
        n,
        omega arith,
        rw step (record {
          within = ground (arith, d.within);
          earlier =
              λ j h k. elim (le_cases i j h) [ inl q ↦ rw (sym q) e | inr q ↦ d.earlier j q k ];
          counted = ground (arith, d.counted);
          outcome = elim d.outcome [
            | inl x ↦ inl x
            | inr (x, inl y) ↦ inr (x, inl y)
            | inr (x, inr (y, z)) ↦ inr (x, inr (y, omega arith))
          ];
        }),
      )
  | inr (inr e) ↦ (
    i,
    omega arith,
    record {
      within = omega arith;
      earlier = λ j h k. absurd (omega arith);
      counted = ground arith;
      outcome = inr (ground arith, inl e);
    },
  )
]

-- A call is decided by the first of its five attempts that is not throttled, or it throws with the
-- fifth: it returns that attempt's answer or throws its error, and counts the throttled attempts
-- before it.
pub with_retry-IsDecidedAt :
    {A : Type 0} (answers : ℕ → Answer A) (s : CycleStats)
    → (n : ℕ) × IsDecidedAt answers s 0 4 n (with_retry answers s)
with_retry-IsDecidedAt answers s =
    let (n, first, d) = retry_from-IsDecidedAt 4 0 answers s in (n, d)
