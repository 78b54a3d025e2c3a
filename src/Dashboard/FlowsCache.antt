-- ===== src/Dashboard/FlowsCache.antt =====
-- The versioned cache of flow windows and lens results: app/src/lib/ddb.ts. A fetch is known by the
-- number it is started under; the version of a call and the moment a fetch settles are given.
pub mod Invariant
pub mod Steps
pub mod Serves
pub mod Flights
use nfm_dashboard.Prelude.{
  ℕ, suc, ◌+◌, Option, none, some, List, [], ◌∷◌, ◌++◌, filter, Bool, true, false, not, ◌&&◌, ◌||◌,
  leb, ◌==◌, if◌then◌else◌, length, ite, Elem,
}
use nfm_dashboard.Prelude.Text.{Str, str_discrete}
use nfm_dashboard.Prelude.Map.{get, put, keys}
use nfm_dashboard.Prelude.Delete.{delete}

pub record FlowsCacheEntry : Type 0 where
  pub fetch : ℕ
  pub version : Str
  pub settled : Bool
  pub timer : Bool

-- The map, the fetches that have not settled and the timers that are armed, both by the key and the
-- fetch of the entry that they close over, and the number of the next fetch.
pub record FlowsCache : Type 0 where
  pub entries : List (Str × FlowsCacheEntry)
  pub flights : List (Str × ℕ)
  pub timers : List (Str × ℕ)
  pub next_fetch : ℕ

abbrev pub empty_cache : FlowsCache
empty_cache = record { entries = []; flights = []; timers = []; next_fetch = 0 }

abbrev pub max_entries : ℕ
max_entries = 200

abbrev pub is_key : Str → Str → Bool
is_key k j = ite (str_discrete k j) true false

abbrev pub lookup : Str → FlowsCache → Option FlowsCacheEntry
lookup k s = get str_discrete k s.entries

-- The list without the closure over an entry.
unfoldable pub without : Str → ℕ → List (Str × ℕ) → List (Str × ℕ)
without k n xs = filter (λ x. not (is_key k x.0 && n == x.1)) xs

unfoldable pub drop_entry : Str → FlowsCacheEntry → FlowsCache → FlowsCache
unfolding without
drop_entry key entry s = record s {
  timers = if entry.timer then without key entry.fetch s.timers else s.timers;
  entries = elim (lookup key s) [
    | none ↦ s.entries
    | some e ↦ if e.fetch == entry.fetch then delete str_discrete key s.entries else s.entries
  ];
}

unfoldable pub sweep_one : Str → Str → FlowsCache → FlowsCache
unfolding drop_entry
sweep_one version k s = elim (lookup k s) [
  | none ↦ s
  | some v ↦ if v.settled && not (is_key v.version version) then drop_entry k v s else s
]

-- The loop over the map, by the keys that it has when the loop begins.
unfoldable pub sweep : Str → List Str → FlowsCache → FlowsCache
unfolding sweep_one
sweep version [] s = s
sweep version (k ∷ ks) s = sweep version ks (sweep_one version k s)

unfoldable pub evict_one : Str → Str → FlowsCache → FlowsCache
unfolding drop_entry
evict_one key k s = elim (lookup k s) [
  | none ↦ s
  | some v ↦ if is_key k key || not v.settled then s else drop_entry k v s
]

unfoldable pub evict : Str → List Str → FlowsCache → FlowsCache
unfolding evict_one
evict key [] s = s
evict key (k ∷ ks) s =
    let rest = evict key ks (evict_one key k s) in
    if leb (length s.entries) max_entries then s else rest

-- What a caller is given: the promise of an earlier fetch, or that of the one it starts.
pub data Outcome : Type 0 where
  joined started : ℕ → Outcome

abbrev pub new_entry : Str → FlowsCache → FlowsCacheEntry
new_entry version s = record {
  fetch = s.next_fetch;
  version = version;
  settled = false;
  timer = false;
}

-- The fetch that begins, with its entry in the map.
unfoldable pub begin_fetch : Str → Str → FlowsCache → FlowsCache
begin_fetch key version s = record s {
  entries = put str_discrete key (new_entry version s) s.entries;
  flights = s.flights ++ (key, s.next_fetch) ∷ [];
  next_fetch = suc s.next_fetch;
}

unfoldable pub cached_fetch : Str → Str → FlowsCache → FlowsCache × Outcome
unfolding sweep evict begin_fetch
cached_fetch key version s =
    let swept = sweep version (keys s.entries) s in
    let begun = begin_fetch key version swept in
    elim (lookup key swept) [
      | some hit ↦ (swept, joined hit.fetch)
      | none ↦ (evict key (keys begun.entries) begun, started swept.next_fetch)
    ]

-- The entry that a closure is over, while the map still holds it.
abbrev pub held : Str → ℕ → FlowsCache → Option FlowsCacheEntry
held key n s = elim (lookup key s) [ none ↦ none | some e ↦ if e.fetch == n then some e else none ]

-- A fetch succeeds: its entry is settled and gets a timer, unless it was evicted.
unfoldable pub land_success : Str → ℕ → FlowsCache → FlowsCache
unfolding without
land_success key n s = elim (held key n s) [
  | none ↦ record s { flights = without key n s.flights }
  | some e ↦ record s {
    flights = without key n s.flights;
    entries = put str_discrete key (record e { settled = true; timer = true }) s.entries;
    timers = s.timers ++ (key, n) ∷ [];
  }
]

-- A fetch fails: its entry is dropped.
unfoldable pub land_failure : Str → ℕ → FlowsCache → FlowsCache
unfolding without drop_entry
land_failure key n s =
    let landed = record s { flights = without key n s.flights } in
    elim (held key n s) [ none ↦ landed | some e ↦ drop_entry key e landed ]

-- A timer fires.
unfoldable pub expire : Str → ℕ → FlowsCache → FlowsCache
unfolding without drop_entry
expire key n s =
    let fired = record s { timers = without key n s.timers } in
    elim (held key n s) [ none ↦ fired | some e ↦ drop_entry key e fired ]

-- What can happen: a call, the end of a fetch that is under way, an armed timer.
pub data Step (s : FlowsCache) : FlowsCache → Type 0 where
  call : (key version : Str) → Step s (cached_fetch key version s).0
  success : (key : Str) (n : ℕ) → Elem (key, n) s.flights → Step s (land_success key n s)
  failure : (key : Str) (n : ℕ) → Elem (key, n) s.flights → Step s (land_failure key n s)
  expiry : (key : Str) (n : ℕ) → Elem (key, n) s.timers → Step s (expire key n s)

pub data Reach : FlowsCache → Type 0 where
  start : Reach empty_cache
  later : {s t : FlowsCache} → Reach s → Step s t → Reach t
