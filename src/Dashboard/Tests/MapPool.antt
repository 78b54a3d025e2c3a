-- ===== src/Dashboard/Tests/MapPool.antt =====
-- Three calls by two workers, the second of which ends first.
use nfm_dashboard.Prelude.{
  ℕ, ◌+◌, ◌≤◌, none, some, List, [], ◌∷◌, map, length, ◌≡◌, ◌⊎◌, refl, arith,
}
use nfm_dashboard.Prelude.Indexed.{at, set_at}
use nfm_dashboard.Dashboard.MapPool.{
  Pool, take_next, spawn, spawned, resume, Step, wake, Run, begin, then_step,
}
use nfm_dashboard.Dashboard.MapPool.Finishes.{in_flight, map_pool_finishes}

abbrev fn : ℕ → ℕ
fn x = x + 10

abbrev three : List ℕ
three = 1 ∷ 2 ∷ 3 ∷ []

abbrev one_done : Pool ℕ
one_done = resume fn three 1 1 (fn 2) (spawned fn three 2)

one_done-Run : Run fn three 2 1 one_done
unfolding spawned spawn take_next at
one_done-Run = then_step begin (wake 1 1 2 refl refl)

one_done_results : one_done.results ≡ none ∷ some 12 ∷ none ∷ []
unfolding resume spawned spawn take_next set_at
one_done_results = refl

map_pool_finishes_example :
    (1 ≤ length three)
    × (in_flight one_done.workers ≤ 2)
    × (((q : Pool ℕ) × Step fn three one_done q)
        ⊎ ((1 ≡ length three) × (one_done.results ≡ map (λ x. some (fn x)) three)))
map_pool_finishes_example = map_pool_finishes fn three 2 1 one_done (omega arith) one_done-Run
