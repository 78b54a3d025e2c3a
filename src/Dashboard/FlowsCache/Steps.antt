-- ===== src/Dashboard/FlowsCache/Steps.antt =====
-- Every step of the cache keeps its invariant.
use mathlib.Core.List.{map-append}
use nfm_dashboard.Prelude.{
  ℕ, none, some, List, [], ◌∷◌, ◌++◌, map, true, false, not, ◌&&◌, ◌||◌, Elem, ◌≡◌, refl, inl, inr,
  arith, Bool-cases, Option-cases, Distinct-append, Elem-map,
}
use nfm_dashboard.Prelude.Text.{Str, str_discrete}
use nfm_dashboard.Prelude.Map.{put, keys, get-put, put-Distinct}
use nfm_dashboard.Prelude.Delete.{delete-Distinct}
use nfm_dashboard.Dashboard.FlowsCache.{
  FlowsCacheEntry, FlowsCache, is_key, lookup, without, drop_entry, new_entry, sweep_one, sweep,
  evict_one, evict, begin_fetch, cached_fetch, land_success, land_failure, expire, Step, call,
  success, failure, expiry, Reach, start, later,
}
use nfm_dashboard.Dashboard.FlowsCache.Invariant.{
  Inv, Elem-listed, listed-without, listed-append, Inv-empty, Inv-at, without-single, drop-Inv,
  drop-entries, drop-lookup, drop-timers, drop-flights,
}

pub sweep_one-Inv : (version k : Str) (s : FlowsCache) → Inv s → Inv (sweep_one version k s)
unfolding sweep_one
sweep_one-Inv version k s inv = elim (Option-cases (lookup k s)) [
  | inl n ↦ rw (n, sweep_one) inv
  | inr (v, h) ↦ elim (Bool-cases (v.settled && not (is_key v.version version))) [
    | inl b ↦ rw (h, sweep_one, b) (drop-Inv k v s h (ground arith) inv)
    | inr b ↦ rw (h, sweep_one, b) inv
  ]
]

pub sweep-Inv : (version : Str) (ks : List Str) (s : FlowsCache) → Inv s → Inv (sweep version ks s)
unfolding sweep
sweep-Inv version [] s inv = inv
sweep-Inv version (k ∷ ks) s inv =
    sweep-Inv version ks (sweep_one version k s) (sweep_one-Inv version k s inv)

pub evict_one-Inv : (key k : Str) (s : FlowsCache) → Inv s → Inv (evict_one key k s)
unfolding evict_one
evict_one-Inv key k s inv = elim (Option-cases (lookup k s)) [
  | inl n ↦ rw (n, evict_one) inv
  | inr (v, h) ↦ elim (Bool-cases (is_key k key || not v.settled)) [
    | inl b ↦ rw (h, evict_one, b) inv
    | inr b ↦ rw (h, evict_one, b) (drop-Inv k v s h (ground arith) inv)
  ]
]

pub evict-Inv : (key : Str) (ks : List Str) (s : FlowsCache) → Inv s → Inv (evict key ks s)
unfolding evict
evict-Inv key [] s inv = inv
evict-Inv key (k ∷ ks) s inv =
    let rest = evict-Inv key ks (evict_one key k s) (evict_one-Inv key k s inv) in ground arith

-- No fetch of a key that the map does not hold is under way.
pub absent_not_flying :
    (key : Str) (s : FlowsCache)
    → Inv s
    → lookup key s ≡ none
    → ¬ Elem key (map (λ x. x.0) s.flights)
absent_not_flying key s inv h m =
    let ((k, n), i, p) = Elem-map (λ (x : Str × ℕ). x.0) s.flights key m in
    let l = Elem-listed k n s.flights i in let q = inv.flying k n in ground arith

pub begin_fetch-Inv :
    (key version : Str) (s : FlowsCache)
    → Inv s
    → lookup key s ≡ none
    → Inv (begin_fetch key version s)
unfolding begin_fetch
begin_fetch-Inv key version s inv h =
    let e = new_entry version s in
    Inv-at s (begin_fetch key version s) key (some e) inv
      (put-Distinct str_discrete key e s.entries inv.distinct)
      (rw (map-append (λ (x : Str × ℕ). x.0) s.flights) (
        Distinct-append (map (λ x. x.0) s.flights) (key ∷ []) inv.single (λ m. m, tt)
          (λ a m i. elim i [ inl p ↦ absent_not_flying key s inv h (rw p at m) | inr j ↦ j ])))
      refl (λ k. get-put str_discrete key k e s.entries)
      (λ k n. ground (arith, listed-append k key n s.next_fetch s.flights, inv.flying key n))
      (λ k n. ground (arith, inv.timed key n))

pub cached_fetch-Inv :
    (key version : Str) (s : FlowsCache) → Inv s → Inv (cached_fetch key version s).0
unfolding cached_fetch
cached_fetch-Inv key version s inv =
    let swept = sweep version (keys s.entries) s in
    let swept_Inv = sweep-Inv version (keys s.entries) s inv in
    elim (Option-cases (lookup key swept)) [
      | inl h ↦
          rw (h, cached_fetch)
            (evict-Inv key (keys (begin_fetch key version swept).entries)
              (begin_fetch key version swept) (begin_fetch-Inv key version swept swept_Inv h))
      | inr (e, h) ↦ rw (h, cached_fetch) swept_Inv
    ]

-- The entry of a fetch that is under way is held, and has neither settled nor a timer.
pub flying-held :
    (key : Str) (n : ℕ) (s : FlowsCache)
    → Inv s
    → Elem (key, n) s.flights
    → (e : FlowsCacheEntry) × (lookup key s ≡ some e)
      × (e.fetch ≡ n)
      × (e.settled ≡ false)
      × (e.timer ≡ false)
flying-held key n s inv m =
    let l = Elem-listed key n s.flights m in
    let q = inv.flying key n in
    elim (Option-cases (lookup key s)) [
      | inl h ↦ ground arith
      | inr (e, h) ↦
          let a = inv.armed key in
          let done : e.settled ≡ false = ground arith in (e, h, ground arith, done, ground arith)
    ]

land_success-Inv :
    (key : Str) (n : ℕ) (s : FlowsCache)
    → Inv s
    → Elem (key, n) s.flights
    → Inv (land_success key n s)
unfolding land_success
land_success-Inv key n s inv m =
    let (e, h, p, q, r) = flying-held key n s inv m in
    let f = record e { settled = true; timer = true } in
    let t = record s {
      flights = without key n s.flights;
      entries = put str_discrete key f s.entries;
      timers = s.timers ++ (key, n) ∷ [];
    } in
    let same : land_success key n s ≡ t = ground arith in
    rw same (
      Inv-at s t key (some f) inv (put-Distinct str_discrete key f s.entries inv.distinct)
        (without-single key n s.flights inv.single) refl
        (λ k. get-put str_discrete key k f s.entries)
        (λ k i. ground (arith, listed-without k key i n s.flights, inv.flying key i))
        (λ k i. ground (arith, listed-append k key i n s.timers, inv.timed key i)))

land_failure-Inv :
    (key : Str) (n : ℕ) (s : FlowsCache)
    → Inv s
    → Elem (key, n) s.flights
    → Inv (land_failure key n s)
unfolding land_failure
land_failure-Inv key n s inv m =
    let (e, h, p, q, r) = flying-held key n s inv m in
    let landed = record s { flights = without key n s.flights } in
    let t = drop_entry key e landed in
    let same : land_failure key n s ≡ t = ground arith in
    rw same (
      Inv-at s t key none inv
        (rw (drop-entries key e landed h) (delete-Distinct str_discrete key s.entries inv.distinct))
        (rw (drop-flights key e landed) (without-single key n s.flights inv.single)) refl
        (drop-lookup key e landed h)
        (λ k i.
          rw (drop-flights key e landed)
            (ground (arith, listed-without k key i n s.flights, inv.flying key i)))
        (λ k i. ground (arith, inv.timed key i)))

expire-Inv :
    (key : Str) (n : ℕ) (s : FlowsCache) → Inv s → Elem (key, n) s.timers → Inv (expire key n s)
unfolding expire
expire-Inv key n s inv m =
    let l = Elem-listed key n s.timers m in
    let w = inv.timed key n in
    elim (Option-cases (lookup key s)) [
      | inl h ↦ ground arith
      | inr (e, h) ↦
          let p : e.fetch ≡ n = ground arith in
          let q : e.settled ≡ true = ground arith in
          let r : e.timer ≡ true = ground (arith, inv.armed key) in
          let fired = record s { timers = without key n s.timers } in
          let t = drop_entry key e fired in
          let same : expire key n s ≡ t = ground arith in
          rw same (
            Inv-at s t key none inv
              (rw (drop-entries key e fired h)
                (delete-Distinct str_discrete key s.entries inv.distinct))
              inv.single refl (drop-lookup key e fired h) (λ k i. ground (arith, inv.flying key i))
              (λ k i. rw (drop-timers key e fired r) (
                ground (
                  arith,
                  listed-without k key i e.fetch fired.timers,
                  listed-without k key i n s.timers,
                  inv.timed key i,
                ))))
    ]

Step-Inv : {s t : FlowsCache} → Step s t → Inv s → Inv t
Step-Inv {s} (call key version) inv = cached_fetch-Inv key version s inv
Step-Inv {s} (success key n m) inv = land_success-Inv key n s inv m
Step-Inv {s} (failure key n m) inv = land_failure-Inv key n s inv m
Step-Inv {s} (expiry key n m) inv = expire-Inv key n s inv m

pub Reach-Inv : {s : FlowsCache} → Reach s → Inv s
Reach-Inv start = Inv-empty
Reach-Inv (later r st) = Step-Inv st (Reach-Inv r)
