-- ===== src/Dashboard/Tests/FlowsCache.antt =====
-- One window that is being fetched.
use nfm_dashboard.Prelude.{none, map, true, false, Elem, Distinct, ◌≡◌, ◌↔◌, refl, inl, ite}
use nfm_dashboard.Prelude.Text.{Str, codes, str_discrete}
use nfm_dashboard.Prelude.Map.{get, put, keys}
use nfm_dashboard.Prelude.Delete.{delete}
use nfm_dashboard.Dashboard.FlowsCache.{
  FlowsCache, joined, started, empty_cache, lookup, cached_fetch, sweep, sweep_one, evict,
  evict_one, begin_fetch, land_failure, land_success, without, Reach, start, later, call,
}
use nfm_dashboard.Dashboard.FlowsCache.Serves.{IsServed, cached_fetch_serves}
use nfm_dashboard.Dashboard.FlowsCache.Flights.{
  HasEntry, flights_single, flight_joined, failure_forgotten,
}

abbrev window : Str
window = codes "w:12"

abbrev early : Str
early = codes "c1|7"

abbrev late : Str
late = codes "c2|7"

abbrev busy : FlowsCache
busy = (cached_fetch window early empty_cache).0

busy-Reach : Reach busy
busy-Reach = later start (call window early)

busy_flight : Elem (window, 0) busy.flights
unfolding cached_fetch sweep evict evict_one begin_fetch get put str_discrete
busy_flight = inl refl

-- Once the fetch has succeeded, the next version fetches anew, and the same one does not.
settled_call :
    let done = land_success window 0 busy in
    ((cached_fetch window early done).1 ≡ joined 0)
    × ((cached_fetch window late done).1 ≡ started 1)
unfolding land_success without cached_fetch sweep sweep_one evict evict_one begin_fetch get put
    str_discrete delete
settled_call = (refl, refl)

cached_fetch_serves_example : IsServed window late busy (cached_fetch window late busy)
cached_fetch_serves_example = cached_fetch_serves busy-Reach window late

flights_single_example :
    Distinct (map (λ x. x.0) busy.flights)
    × (Elem (window, 0) busy.flights ↔ HasEntry false window 0 busy)
    × (Elem (window, 0) busy.timers ↔ HasEntry true window 0 busy)
flights_single_example = flights_single busy-Reach window 0

flight_joined_example :
    let t = (cached_fetch (codes "p:6") late busy).0 in
    Elem (window, 0) t.flights × ((cached_fetch window late t).1 ≡ joined 0)
flight_joined_example = flight_joined busy-Reach window 0 busy_flight (codes "p:6") late late

failure_forgotten_example :
    let t = land_failure window 0 busy in
    (lookup window t ≡ ite (str_discrete window window) none (lookup window busy))
    × ((cached_fetch window late t).1 ≡ started (sweep late (keys t.entries) t).next_fetch)
failure_forgotten_example = failure_forgotten busy-Reach window 0 busy_flight late window
