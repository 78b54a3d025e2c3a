-- ===== src/Dashboard/FlowsCache/Invariant.antt =====
-- The closures that are alive are those over the entries of the map.
use nfm_dashboard.Prelude.{
  ℕ, Option, none, some, List, [], ◌∷◌, ◌++◌, map, Bool, true, false, not, ◌&&◌, ◌||◌, ◌==◌,
  if◌then◌else◌, ite, Elem, Distinct, ◌≡◌, inl, inr, refl, ap, ◌∙◌, arith, Distinct-map-filter,
}
use nfm_dashboard.Prelude.Text.{Str, str_discrete}
use nfm_dashboard.Prelude.Map.{get, keys}
use nfm_dashboard.Prelude.Delete.{delete, get-delete, delete-Distinct}
use nfm_dashboard.Dashboard.FlowsCache.{
  FlowsCacheEntry, FlowsCache, empty_cache, is_key, lookup, without, drop_entry,
}

abbrev pub listed : Str → ℕ → List (Str × ℕ) → Bool
listed k n [] = false
listed k n (x ∷ xs) = (is_key k x.0 && n == x.1) || listed k n xs

-- Whether a possible entry is that of a fetch, and settled or not.
abbrev pub is_entry : Bool → ℕ → Option FlowsCacheEntry → Bool
is_entry done n none = false
is_entry done n (some e) = e.fetch == n && (if done then e.settled else not e.settled)

abbrev pub is_armed : Option FlowsCacheEntry → Bool
is_armed none = true
is_armed (some e) = if e.settled then e.timer else not e.timer

pub record Inv (s : FlowsCache) : Type 0 where
  pub distinct : Distinct (keys s.entries)
  pub flying : (k : Str) (n : ℕ) → listed k n s.flights ≡ is_entry false n (lookup k s)
  pub timed : (k : Str) (n : ℕ) → listed k n s.timers ≡ is_entry true n (lookup k s)
  pub armed : (k : Str) → is_armed (lookup k s) ≡ true
  pub single : Distinct (map (λ x. x.0) s.flights)

pub Elem-listed : (k : Str) (n : ℕ) (xs : List (Str × ℕ)) → Elem (k, n) xs → listed k n xs ≡ true
Elem-listed k n [] h = absurd h
Elem-listed k n (x ∷ xs) (inl p) =
    let a : k ≡ x.0 = ap (λ (y : Str × ℕ). y.0) p in
    let b : n ≡ x.1 = ap (λ (y : Str × ℕ). y.1) p in ground arith
Elem-listed k n (x ∷ xs) (inr h) = ground (arith, Elem-listed k n xs h)

pub listed-without :
    (k j : Str) (n i : ℕ) (xs : List (Str × ℕ))
    → listed k n (without j i xs) ≡ (listed k n xs && not (is_key j k && i == n))
unfolding without
listed-without k j n i [] = refl
listed-without k j n i (x ∷ xs) = ground (arith, listed-without k j n i xs)

pub listed-append :
    (k j : Str) (n i : ℕ) (xs : List (Str × ℕ))
    → listed k n (xs ++ (j, i) ∷ []) ≡ (listed k n xs || (is_key k j && n == i))
listed-append k j n i [] = ground arith
listed-append k j n i (x ∷ xs) = ground (arith, listed-append k j n i xs)

pub Inv-empty : Inv empty_cache
unfolding get
Inv-empty = record {
  distinct = tt;
  flying = λ _ _. refl;
  timed = λ _ _. refl;
  armed = λ _. refl;
  single = tt;
}

pub without-single :
    (k : Str) (n : ℕ) (xs : List (Str × ℕ))
    → Distinct (map (λ x. x.0) xs)
    → Distinct (map (λ x. x.0) (without k n xs))
unfolding without
without-single k n xs d = Distinct-map-filter (λ (x : Str × ℕ). x.0) _ xs d

-- A change at one key keeps the invariant where its closures are changed with its entry.
pub Inv-at :
    (s t : FlowsCache) (key : Str) (o : Option FlowsCacheEntry)
    → Inv s
    → Distinct (keys t.entries)
    → Distinct (map (λ x. x.0) t.flights)
    → is_armed o ≡ true
    → ((k : Str) → lookup k t ≡ ite (str_discrete key k) o (lookup k s))
    → ((k : Str) (n : ℕ)
        → listed k n t.flights
          ≡ ite (str_discrete key k) (is_entry false n o) (listed k n s.flights))
    → ((k : Str) (n : ℕ)
        → listed k n t.timers ≡ ite (str_discrete key k) (is_entry true n o) (listed k n s.timers))
    → Inv t
Inv-at s t key o inv d f a l x y = record {
  distinct = d;
  flying = λ k n. ground (arith, l k, x k n, inv.flying k n);
  timed = λ k n. ground (arith, l k, y k n, inv.timed k n);
  armed = λ k. ground (arith, l k, inv.armed k);
  single = f;
}

-- Dropping an entry that the map holds removes it.
pub drop-entries :
    (key : Str) (e : FlowsCacheEntry) (s : FlowsCache)
    → lookup key s ≡ some e
    → (drop_entry key e s).entries ≡ delete str_discrete key s.entries
unfolding drop_entry
drop-entries key e s h = ground arith

pub drop-lookup :
    (key : Str) (e : FlowsCacheEntry) (s : FlowsCache)
    → lookup key s ≡ some e
    → (k : Str) → lookup k (drop_entry key e s) ≡ ite (str_discrete key k) none (lookup k s)
drop-lookup key e s h k =
    ap (get str_discrete k) (drop-entries key e s h) ∙ get-delete str_discrete key k s.entries

pub drop-timers :
    (key : Str) (e : FlowsCacheEntry) (s : FlowsCache)
    → e.timer ≡ true
    → (drop_entry key e s).timers ≡ without key e.fetch s.timers
unfolding drop_entry
drop-timers key e s t = ground arith

pub drop-flights :
    (key : Str) (e : FlowsCacheEntry) (s : FlowsCache) → (drop_entry key e s).flights ≡ s.flights
unfolding drop_entry
drop-flights key e s = refl

pub drop-Inv :
    (key : Str) (e : FlowsCacheEntry) (s : FlowsCache)
    → lookup key s ≡ some e
    → e.settled ≡ true
    → Inv s
    → Inv (drop_entry key e s)
drop-Inv key e s h done inv =
    let t : e.timer ≡ true = ground (arith, inv.armed key) in
    Inv-at s (drop_entry key e s) key none inv
      (rw (drop-entries key e s h) (delete-Distinct str_discrete key s.entries inv.distinct))
      (rw (drop-flights key e s) inv.single) refl (drop-lookup key e s h)
      (λ k n. rw (drop-flights key e s) (ground (arith, inv.flying key n)))
      (λ k n.
        rw (drop-timers key e s t)
          (ground (arith, listed-without k key n e.fetch s.timers, inv.timed key n)))
