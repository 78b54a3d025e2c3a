-- ===== src/Dashboard/FlowsCache/Flights.antt =====
-- The fetches that are under way, the timers, and the failures.
use nfm_dashboard.Prelude.{
  ℕ, none, some, List, [], ◌∷◌, map, Bool, true, false, Elem, Distinct, ◌≡◌, ◌≢◌, ◌↔◌, inl, inr, ap,
  ◌∙◌, arith, Option-cases, ite,
}
use nfm_dashboard.Prelude.Text.{Str, str_discrete}
use nfm_dashboard.Prelude.Map.{keys, get-put}
use nfm_dashboard.Dashboard.FlowsCache.{
  FlowsCacheEntry, FlowsCache, Outcome, joined, started, lookup, new_entry, sweep, begin_fetch,
  cached_fetch, land_failure, drop_entry, without, Reach,
}
use nfm_dashboard.Dashboard.FlowsCache.Invariant.{listed, Inv, Elem-listed, drop-lookup}
use nfm_dashboard.Dashboard.FlowsCache.Steps.{cached_fetch-Inv, flying-held, Reach-Inv}
use nfm_dashboard.Dashboard.FlowsCache.Serves.{
  fresh, swept-lookup, evict_keeps, begun, cached_fetch-hit, cached_fetch-miss,
}

listed→Elem : (k : Str) (n : ℕ) (xs : List (Str × ℕ)) → listed k n xs ≡ true → Elem (k, n) xs
listed→Elem k n [] h = ground arith
listed→Elem k n ((j, i) ∷ xs) h = ground (arith, listed→Elem k n xs)

-- The map has an entry of the fetch, settled or not.
abbrev pub HasEntry : Bool → Str → ℕ → FlowsCache → Type 0
HasEntry done k n s =
    (e : FlowsCacheEntry) × (lookup k s ≡ some e) × (e.fetch ≡ n) × (e.settled ≡ done)

timed-HasEntry :
    (k : Str) (n : ℕ) (s : FlowsCache) → Inv s → Elem (k, n) s.timers → HasEntry true k n s
timed-HasEntry k n s inv m =
    let l = Elem-listed k n s.timers m in
    let q = inv.timed k n in
    elim (Option-cases (lookup k s)) [
      | inl h ↦ ground arith
      | inr (e, h) ↦ (e, h, ground arith, ground arith)
    ]

-- In every state that the cache comes to, no key has two fetches under way; a fetch is under way
-- exactly where the map has an entry of it that has not settled; and a timer is armed exactly over the
-- settled entries of the map.
pub flights_single :
    {s : FlowsCache} (r : Reach s) (k : Str) (n : ℕ)
    → Distinct (map (λ x. x.0) s.flights)
      × (Elem (k, n) s.flights ↔ HasEntry false k n s)
      × (Elem (k, n) s.timers ↔ HasEntry true k n s)
flights_single {s} r k n =
    let inv = Reach-Inv r in
    let q = inv.flying k n in
    let p = inv.timed k n in
    (
      inv.single,
      (
        λ m. let (e, h, a, b, c) = flying-held k n s inv m in (e, h, a, b),
        λ (e, h, a, b). listed→Elem k n s.flights (ground arith),
      ),
      (timed-HasEntry k n s inv, λ (e, h, a, b). listed→Elem k n s.timers (ground arith)),
    )

begun_keeps :
    (key version k : Str) (s : FlowsCache) (e : FlowsCacheEntry)
    → lookup k s ≡ some e
    → key ≢ k
    → lookup k (begin_fetch key version s) ≡ some e
unfolding begin_fetch
begun_keeps key version k s e l ne =
    ground (arith, get-put str_discrete key k (new_entry version s) s.entries)

cached_fetch_keeps :
    (key version k : Str) (s : FlowsCache) (e : FlowsCacheEntry)
    → lookup k s ≡ some e
    → e.settled ≡ false
    → lookup k (cached_fetch key version s).0 ≡ some e
cached_fetch_keeps key version k s e h p =
    let swept = sweep version (keys s.entries) s in
    let l : lookup k swept ≡ some e = ground (arith, swept-lookup version k s) in
    elim (Option-cases (fresh version (lookup key s))) [
      | inr (v, hit) ↦ rw (cached_fetch-hit key version s v hit) l
      | inl miss ↦
          let b = begun key version s in
          let kept = begun_keeps key version k swept e l (λ q. ground arith) in
          rw (cached_fetch-miss key version s miss)
            (evict_keeps key k e (keys b.entries) b kept (ground arith))
    ]

-- A fetch that is under way stays so through a call of any key and version, and the next call of its
-- key, of any version, joins it.
pub flight_joined :
    {s : FlowsCache} (r : Reach s) (k : Str) (n : ℕ)
    → Elem (k, n) s.flights
    → (key version next_version : Str)
    → let t = (cached_fetch key version s).0 in
      Elem (k, n) t.flights × ((cached_fetch k next_version t).1 ≡ joined n)
flight_joined {s} r k n m key version next_version =
    let inv = Reach-Inv r in
    let t = (cached_fetch key version s).0 in
    let t_Inv = cached_fetch-Inv key version s inv in
    let (e, h, a, b, c) = flying-held k n s inv m in
    let l = cached_fetch_keeps key version k s e h b in
    let q = t_Inv.flying k n in
    (
      listed→Elem k n t.flights (ground arith),
      ap (λ (x : FlowsCache × Outcome). x.1) (cached_fetch-hit k next_version t e (ground arith))
          ∙ ap joined a,
    )

-- Where a fetch fails, the map forgets its key and keeps the others, and the next call of the key
-- starts a fetch anew.
pub failure_forgotten :
    {s : FlowsCache} (r : Reach s) (k : Str) (n : ℕ)
    → Elem (k, n) s.flights
    → (version j : Str)
    → let t = land_failure k n s in
      (lookup j t ≡ ite (str_discrete k j) none (lookup j s))
      × ((cached_fetch k version t).1 ≡ started (sweep version (keys t.entries) t).next_fetch)
unfolding land_failure
failure_forgotten {s} r k n m version j =
    let (e, h, a, b, c) = flying-held k n s (Reach-Inv r) m in
    let landed = record s { flights = without k n s.flights } in
    let t = land_failure k n s in
    let same : t ≡ drop_entry k e landed = ground arith in
    let l : (i : Str) → lookup i t ≡ ite (str_discrete k i) none (lookup i s) =
      λ i. ap (lookup i) same ∙ drop-lookup k e landed h i in
    (
      l j,
      ap (λ (x : FlowsCache × Outcome). x.1) (cached_fetch-miss k version t (ground (arith, l k))),
    )
