-- ===== src/Dashboard/MapPool.antt =====
-- The worker pool of the window queries: mapPool of app/src/lib/ddb.ts. The calls of `fn` succeed, in
-- any order.
pub mod Finishes
use nfm_dashboard.Prelude.{
  ℕ, zero, suc, ◌+◌, min, Option, none, some, List, [], ◌∷◌, ◌++◌, map, ltb, if◌then◌else◌, length,
  ◌≡◌,
}
use nfm_dashboard.Prelude.Indexed.{at, set_at}

-- A worker waits for the call on the item at an index, or has ended; a result is there or not yet.
pub record Pool (R : Type 0) : Type 0 where
  pub next : ℕ
  pub workers : List (Option ℕ)
  pub results : List (Option R)

module _ {T R : Type 0} (fn : T → R) (items : List T) where
  -- `while (next < items.length) { const i = next++; … }`, up to the await
  unfoldable pub take_next : ℕ → Option ℕ × ℕ
  take_next next = if ltb next (length items) then (some next, suc next) else (none, next)

  unfoldable pub spawn : ℕ → Pool R → Pool R
  unfolding take_next
  spawn zero p = p
  spawn (suc k) p =
      let (worker, next) = take_next p.next in
      spawn k (record p { next = next; workers = p.workers ++ worker ∷ [] })

  -- The workers of the call, each at its first await.
  unfoldable pub spawned : ℕ → Pool R
  unfolding spawn
  spawned limit =
      spawn (min limit (length items))
        (record { next = 0; workers = []; results = map (λ _. none) items })

  -- The worker at an index goes on with the result of its item.
  unfoldable pub resume : ℕ → ℕ → R → Pool R → Pool R
  unfolding take_next
  resume j i r p =
      let (worker, next) = take_next p.next in
      record {
        next = next;
        workers = set_at j worker p.workers;
        results = set_at i (some r) p.results;
      }

  pub data Step (p : Pool R) : Pool R → Type 0 where
    wake :
        (j i : ℕ) (item : T)
        → at j p.workers ≡ some (some i)
        → at i items ≡ some item
        → Step p (resume j i (fn item) p)

  pub data Run (limit : ℕ) : ℕ → Pool R → Type 0 where
    begin : Run limit 0 (spawned limit)
    then_step : {k : ℕ} {p q : Pool R} → Run limit k p → Step p q → Run limit (suc k) q
