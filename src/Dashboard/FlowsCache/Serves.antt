-- ===== src/Dashboard/FlowsCache/Serves.antt =====
-- What a call of the cache finds, starts and drops.
use nfm_dashboard.Prelude.{
  ◌≤◌, Option, none, some, List, [], ◌∷◌, map, Bool, true, false, not, ◌&&◌, ◌||◌, leb, leb→le,
  if◌then◌else◌, length, Elem, All, All-of_Elem, ◌≡◌, ◌⊎◌, refl, inl, inr, sym, ◌∙◌, arith,
  Bool-cases, Option-cases, ite,
}
use nfm_dashboard.Prelude.Text.{Str, str_discrete}
use nfm_dashboard.Prelude.Map.{keys, get-put_self, get-Elem, Elem-get, Elem-keys}
use nfm_dashboard.Prelude.Set.{contains, Elem→contains}
use nfm_dashboard.Dashboard.FlowsCache.{
  FlowsCacheEntry, FlowsCache, Outcome, joined, started, is_key, lookup, max_entries, new_entry,
  sweep_one, sweep, evict_one, evict, begin_fetch, cached_fetch, Reach,
}
use nfm_dashboard.Dashboard.FlowsCache.Invariant.{Inv, drop-lookup, drop-flights}
use nfm_dashboard.Dashboard.FlowsCache.Steps.{
  sweep-Inv, evict-Inv, begin_fetch-Inv, Reach-Inv, absent_not_flying,
}

-- What the sweep leaves of an entry, and the cap.
abbrev pub fresh : Str → Option FlowsCacheEntry → Option FlowsCacheEntry
fresh version none = none
fresh version (some v) = if v.settled && not (is_key v.version version) then none else some v

abbrev pub spared : Bool → Option FlowsCacheEntry → Option FlowsCacheEntry
spared new none = none
spared new (some v) = if new || not v.settled then some v else none

sweep_one-lookup :
    (version k j : Str) (s : FlowsCache)
    → lookup j (sweep_one version k s)
      ≡ ite (str_discrete k j) (fresh version (lookup j s)) (lookup j s)
unfolding sweep_one
sweep_one-lookup version k j s = elim (Option-cases (lookup k s)) [
  | inl n ↦ rw (n, sweep_one) (ground arith)
  | inr (v, h) ↦ ground (arith, drop-lookup k v s h j)
]

sweep-lookup :
    (version j : Str) (ks : List Str) (s : FlowsCache)
    → lookup j (sweep version ks s)
      ≡ (if contains str_discrete j ks then fresh version (lookup j s) else lookup j s)
unfolding sweep contains
sweep-lookup version j [] s = refl
sweep-lookup version j (k ∷ ks) s =
    ground
      (arith, sweep-lookup version j ks (sweep_one version k s), sweep_one-lookup version k j s)

sweep-flights :
    (version : Str) (ks : List Str) (s : FlowsCache) → (sweep version ks s).flights ≡ s.flights
unfolding sweep sweep_one
sweep-flights version [] s = refl
sweep-flights version (k ∷ ks) s =
    let one : (sweep_one version k s).flights ≡ s.flights = ground (arith, drop-flights k) in
    sweep-flights version ks (sweep_one version k s) ∙ one

-- After the sweep a key has its entry where that is pending or of the current version.
pub swept-lookup :
    (version j : Str) (s : FlowsCache)
    → lookup j (sweep version (keys s.entries) s) ≡ fresh version (lookup j s)
swept-lookup version j s =
    sweep-lookup version j (keys s.entries) s ∙ elim (Option-cases (lookup j s)) [
      | inl n ↦ ground arith
      | inr (v, h) ↦
          let m = Elem-keys str_discrete j v s.entries (get-Elem str_discrete j v s.entries h) in
          ground (arith, Elem→contains str_discrete j (keys s.entries) m)
    ]

evict_one-lookup :
    (key k j : Str) (s : FlowsCache)
    → lookup j (evict_one key k s)
      ≡ ite (str_discrete k j) (spared (is_key k key) (lookup j s)) (lookup j s)
unfolding evict_one
evict_one-lookup key k j s = elim (Option-cases (lookup k s)) [
  | inl n ↦ rw (n, evict_one) (ground arith)
  | inr (v, h) ↦ ground (arith, drop-lookup k v s h j)
]

-- The cap takes an entry out or leaves it as it is.
evict_shrinks :
    (key j : Str) (ks : List Str) (s : FlowsCache)
    → (lookup j (evict key ks s) ≡ lookup j s) ⊎ (lookup j (evict key ks s) ≡ none)
unfolding evict
evict_shrinks key j [] s = inl refl
evict_shrinks key j (k ∷ ks) s =
    ground (arith, evict_shrinks key j ks (evict_one key k s), evict_one-lookup key k j s)

pub evict_keeps :
    (key j : Str) (v : FlowsCacheEntry) (ks : List Str) (s : FlowsCache)
    → lookup j s ≡ some v
    → (is_key j key || not v.settled) ≡ true
    → lookup j (evict key ks s) ≡ some v
unfolding evict
evict_keeps key j v [] s h b = h
evict_keeps key j v (k ∷ ks) s h b =
    let one : lookup j (evict_one key k s) ≡ some v = ground (arith, evict_one-lookup key k j s) in
    ground (arith, evict_keeps key j v ks (evict_one key k s) one b)

evict_bounded :
    (key j : Str) (ks : List Str) (s : FlowsCache)
    → Elem j ks
    → (length (evict key ks s).entries ≤ max_entries)
      ⊎ (spared (is_key j key) (lookup j (evict key ks s)) ≡ lookup j (evict key ks s))
unfolding evict
evict_bounded key j [] s m = absurd m
evict_bounded key j (k ∷ ks) s m = elim (Bool-cases (leb (length s.entries) max_entries)) [
  | inl b ↦ rw b (inl (leb→le _ _ b))
  | inr b ↦ rw b (elim m [
    | inl p ↦
        inr (ground (arith, evict_shrinks key j ks (evict_one key k s), evict_one-lookup key k j s))
    | inr i ↦ evict_bounded key j ks (evict_one key k s) i
  ])
]

pub cached_fetch-hit :
    (key version : Str) (s : FlowsCache) (e : FlowsCacheEntry)
    → fresh version (lookup key s) ≡ some e
    → cached_fetch key version s ≡ (sweep version (keys s.entries) s, joined e.fetch)
unfolding cached_fetch
cached_fetch-hit key version s e h = rw (swept-lookup version key s ∙ h, cached_fetch) refl

abbrev pub begun : Str → Str → FlowsCache → FlowsCache
begun key version s = begin_fetch key version (sweep version (keys s.entries) s)

pub cached_fetch-miss :
    (key version : Str) (s : FlowsCache)
    → fresh version (lookup key s) ≡ none
    → cached_fetch key version s ≡ (
      evict key (keys (begun key version s).entries) (begun key version s),
      started (sweep version (keys s.entries) s).next_fetch,
    )
unfolding cached_fetch
cached_fetch-miss key version s h = rw (swept-lookup version key s ∙ h, cached_fetch) refl

begun-lookup :
    (key version : Str) (s : FlowsCache)
    → lookup key (begun key version s) ≡ some (new_entry version (sweep version (keys s.entries) s))
unfolding begin_fetch
begun-lookup key version s =
    let swept = sweep version (keys s.entries) s in
    get-put_self str_discrete key (new_entry version swept) swept.entries

-- What a call does, by the promise that it returns.
abbrev pub IsServed : Str → Str → FlowsCache → FlowsCache × Outcome → Type 0
IsServed key version s (t, joined n) =
    (e : FlowsCacheEntry) × (lookup key s ≡ some e)
    × (e.fetch ≡ n)
    × (lookup key t ≡ some e)
    × ((e.settled ≡ false) ⊎ (e.version ≡ version))
IsServed key version s (t, started n) =
    (¬ Elem key (map (λ x. x.0) s.flights))
    × (lookup key t
        ≡ some (record { fetch = n; version = version; settled = false; timer = false }))
    × ((length t.entries ≤ max_entries) ⊎ All (λ x. x.1.settled ≡ false) t.entries)

-- An entry that the cap leaves, where the map is still over its bound, is pending.
evicted_pending :
    (key : Str) (s : FlowsCache) (e : FlowsCacheEntry)
    → lookup key s ≡ some e
    → e.settled ≡ false
    → Inv (evict key (keys s.entries) s)
    → (leb (length (evict key (keys s.entries) s).entries) max_entries) ≡ false
    → All (λ x. x.1.settled ≡ false) (evict key (keys s.entries) s).entries
evicted_pending key s e h p inv over =
    let t = evict key (keys s.entries) s in
    All-of_Elem _ t.entries (λ x m.
      let l = Elem-get str_discrete x.0 x.1 t.entries inv.distinct m in
      elim (evict_shrinks key x.0 (keys s.entries) s) [
        | inr n ↦ ground arith
        | inl q ↦
            let was : lookup x.0 s ≡ some x.1 = sym q ∙ l in
            let i =
              Elem-keys str_discrete x.0 x.1 s.entries
                (get-Elem str_discrete x.0 x.1 s.entries was) in
            elim (evict_bounded key x.0 (keys s.entries) s i) [
              | inl b ↦ ground arith
              | inr b ↦ ground arith
            ]
      ])

-- In every state that the cache comes to, a call either joins an entry that was there, pending or of
-- the call's version, and leaves it there; or it starts a fetch, where none of the key was under way,
-- whose entry has the call's version, and then at most 200 entries are left or all are pending.
pub cached_fetch_serves :
    {s : FlowsCache} (r : Reach s) (key version : Str)
    → IsServed key version s (cached_fetch key version s)
cached_fetch_serves {s} r key version =
    let inv = Reach-Inv r in
    let swept = sweep version (keys s.entries) s in
    elim (Option-cases (fresh version (lookup key s))) [
      | inr (e, h) ↦
          let l : lookup key swept ≡ some e = swept-lookup version key s ∙ h in
          rw (cached_fetch-hit key version s e h) (elim (Option-cases (lookup key s)) [
            | inl n ↦ ground arith
            | inr (v, was) ↦ elim (Bool-cases v.settled) [
              | inl b ↦ (e, ground arith, refl, l, inr (ground arith))
              | inr b ↦ (e, ground arith, refl, l, inl (ground arith))
            ]
          ])
      | inl h ↦
          let l : lookup key swept ≡ none = swept-lookup version key s ∙ h in
          let swept_Inv = sweep-Inv version (keys s.entries) s inv in
          let b = begun key version s in
          let new = begun-lookup key version s in
          let t = evict key (keys b.entries) b in
          let t_Inv =
            evict-Inv key (keys b.entries) b (begin_fetch-Inv key version swept swept_Inv l) in
          rw (cached_fetch-miss key version s h) (
            rw (sweep-flights version (keys s.entries) s) at
                (absent_not_flying key swept swept_Inv l),
            evict_keeps key key (new_entry version swept) (keys b.entries) b new (ground arith),
            elim (Bool-cases (leb (length t.entries) max_entries)) [
              | inl under ↦ inl (leb→le _ _ under)
              | inr over ↦ inr (evicted_pending key b (new_entry version swept) new refl t_Inv over)
            ],
          )
    ]
