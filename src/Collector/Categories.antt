-- ===== src/Collector/Categories.antt =====
-- The destination categories of a cycle: collector/src/categories.ts.
use native.Mathlib.Nat.{mod-lt, mod-add-mod, mod_self, zero-mod}
use nfm_dashboard.Prelude.{
  ℕ, ◌+◌, ◌%◌, ◌-◌, ◌<◌, ◌≡◌, ◌↔◌, List, [], ◌∷◌, ◌++◌, ◌&&◌, ltb, ◌==◌, if◌then◌else◌, arith,
}
use nfm_dashboard.Collector.Types.{
  DestCategory, intra_az, inter_az, inter_vpc, unclassified, amazon_s3, amazon_dynamodb,
  inter_region,
}

abbrev pub core : List DestCategory
core = intra_az ∷ inter_az ∷ inter_vpc ∷ []

abbrev pub extended : List DestCategory
extended = unclassified ∷ amazon_s3 ∷ amazon_dynamodb ∷ inter_region ∷ []

unfoldable pub categories_for_cycle : ℕ → ℕ → List DestCategory
categories_for_cycle cycle every_n =
    if ltb 0 every_n && (cycle % every_n == 0) then core ++ extended else core

-- How many cycles the next extended one is away.
until_extended : ℕ → ℕ → ℕ
until_extended cycle every_n = if cycle % every_n == 0 then 0 else every_n - cycle % every_n

mod-until_extended :
    (cycle every_n : ℕ)
    → 0 < every_n
    → (until_extended cycle every_n < every_n)
      × ((cycle + until_extended cycle every_n) % every_n ≡ 0)
unfolding until_extended
mod-until_extended cycle every_n h = ground (
  arith,
  mod-lt cycle h,
  mod-add-mod cycle every_n 0,
  mod-add-mod cycle every_n (every_n - cycle % every_n),
  mod_self every_n,
  zero-mod every_n,
)

-- Where `every_n` is positive, a cycle queries the extended categories beside the core ones exactly
-- when it is a multiple of `every_n`, and among any `every_n` cycles in a row there is one that does.
pub categories_for_cycle_rotates :
    (cycle every_n : ℕ)
    → 0 < every_n
    → ((categories_for_cycle cycle every_n ≡ core ++ extended) ↔ (cycle % every_n ≡ 0))
      × ((k : ℕ) × (k < every_n) × (categories_for_cycle (cycle + k) every_n ≡ core ++ extended))
unfolding categories_for_cycle
categories_for_cycle_rotates cycle every_n h =
    let (small, zero_mod) = mod-until_extended cycle every_n h in
    (ground arith, (until_extended cycle every_n, small, ground arith))
