-- ===== src/Dashboard/MapPool/Finishes.antt =====
-- Every run of the pool ends, with the results in the order of the items.
use nfm_dashboard.Prelude.{
  ℕ, zero, suc, ◌+◌, ◌-◌, ◌≤◌, ◌<◌, min, Option, none, some, List, [], ◌∷◌, ◌++◌, map, ltb, ltb→lt,
  ltb→le, length, length-map, length-append, ℕ_discrete, ◌≡◌, ◌⊎◌, inl, inr, refl, sym, ap, ◌∙◌,
  arith, Bool-cases, dec_lt,
}
use nfm_dashboard.Prelude.Indexed.{
  at, set_at, length-set_at, at-set_at_self, at-set_at_other, at-lt, at-append_left, at-append_self,
  at_ext, at-map, at-append,
}
use nfm_dashboard.Dashboard.MapPool.{
  Pool, take_next, spawn, spawned, resume, Step, wake, Run, begin, then_step,
}

-- How many workers wait for a call.
abbrev pub in_flight : List (Option ℕ) → ℕ
in_flight [] = 0
in_flight (none ∷ ws) = in_flight ws
in_flight (some i ∷ ws) = suc (in_flight ws)

abbrev weight : Option ℕ → ℕ
weight none = 0
weight (some i) = 1

in_flight-append :
    (ws : List (Option ℕ)) (w : Option ℕ) → in_flight (ws ++ w ∷ []) ≡ in_flight ws + weight w
in_flight-append [] none = refl
in_flight-append [] (some i) = refl
in_flight-append (none ∷ ws) w = in_flight-append ws w
in_flight-append (some i ∷ ws) w = ground (arith, in_flight-append ws w)

in_flight-set_at :
    (j i : ℕ) (w : Option ℕ) (ws : List (Option ℕ))
    → at j ws ≡ some (some i)
    → suc (in_flight (set_at j w ws)) ≡ in_flight ws + weight w
unfolding at set_at
in_flight-set_at j i w [] h = cc
in_flight-set_at zero i none (none ∷ ws) h = ground arith
in_flight-set_at zero i (some k) (none ∷ ws) h = ground arith
in_flight-set_at zero i none (some l ∷ ws) h = ground arith
in_flight-set_at zero i (some k) (some l ∷ ws) h = ground arith
in_flight-set_at (suc j) i w (none ∷ ws) h = in_flight-set_at j i w ws h
in_flight-set_at (suc j) i w (some l ∷ ws) h = ground (arith, in_flight-set_at j i w ws h)

in_flight-le : (ws : List (Option ℕ)) → in_flight ws ≤ length ws
in_flight-le [] = omega arith
in_flight-le (none ∷ ws) = omega (arith, in_flight-le ws)
in_flight-le (some i ∷ ws) = omega (arith, in_flight-le ws)

busy_counts : (j i : ℕ) (ws : List (Option ℕ)) → at j ws ≡ some (some i) → 0 < in_flight ws
unfolding at
busy_counts j i [] h = cc
busy_counts zero i (none ∷ ws) h = cc
busy_counts (suc j) i (none ∷ ws) h = busy_counts j i ws h
busy_counts j i (some k ∷ ws) h = omega arith

-- A worker that waits is found where there is one.
find_busy :
    (ws : List (Option ℕ)) → ((j : ℕ) × (i : ℕ) × (at j ws ≡ some (some i))) ⊎ (in_flight ws ≡ 0)
unfolding at
find_busy [] = inr refl
find_busy (some i ∷ ws) = inl (0, i, refl)
find_busy (none ∷ ws) = elim (find_busy ws) [ inl (j, i, h) ↦ inl (suc j, i, h) | inr e ↦ inr e ]

module _ {T R : Type 0} (fn : T → R) (items : List T) where
  abbrev pub finished : List (Option R)
  finished = map (λ x. some (fn x)) items

  record Inv (p : Pool R) : Type 0 where
    bound : p.next ≤ length items
    size : length p.results ≡ length items
    taken :
        (i : ℕ)
        → i < p.next
        → ((j : ℕ) × (at j p.workers ≡ some (some i))) ⊎ (at i p.results ≡ at i finished)
    busy : (j i : ℕ) → at j p.workers ≡ some (some i) → i < p.next
    ended : (j : ℕ) → at j p.workers ≡ some none → p.next ≡ length items

  -- What is left of the items.
  abbrev remaining : Pool R → ℕ
  remaining p = (length items - p.next) + in_flight p.workers

  at_of_lt : {A : Type 0} (i : ℕ) (xs : List A) → i < length xs → (a : A) × (at i xs ≡ some a)
  unfolding at
  at_of_lt i [] h = absurd (omega arith)
  at_of_lt zero (x ∷ xs) h = (x, refl)
  at_of_lt (suc i) (x ∷ xs) h = at_of_lt i xs (omega arith)

  resume-remaining :
      (j i : ℕ) (r : R) (p : Pool R)
      → Inv p
      → at j p.workers ≡ some (some i)
      → suc (remaining (resume fn items j i r p)) ≡ remaining p
  unfolding resume take_next
  resume-remaining j i r p inv h = elim (Bool-cases (ltb p.next (length items))) [
    | inl b ↦ rw b (omega (arith, ltb→lt _ _ b, in_flight-set_at j i (some p.next) p.workers h))
    | inr b ↦ rw b (omega (arith, in_flight-set_at j i none p.workers h))
  ]

  -- What a worker takes: the next index, or nothing where there is none left.
  abbrev IsTaken : ℕ → Option ℕ → ℕ → Type 0
  IsTaken next none next' = (next' ≡ next) × (length items ≤ next)
  IsTaken next (some i) next' = (i ≡ next) × (next' ≡ suc next) × (next < length items)

  take_next-IsTaken : (next : ℕ) → let (w, next') = take_next fn items next in IsTaken next w next'
  unfolding take_next
  take_next-IsTaken next = elim (Bool-cases (ltb next (length items))) [
    | inl b ↦ rw b (refl, refl, ltb→lt _ _ b)
    | inr b ↦ rw b (refl, ltb→le _ _ b)
  ]

  -- What follows for the indices that are taken.
  record Advance (next : ℕ) (w : Option ℕ) (next' : ℕ) : Type 0 where
    rises : next ≤ next'
    within : next' ≤ length items
    new : (k : ℕ) → k < next' → (k < next) ⊎ (w ≡ some k)
    below : (k : ℕ) → w ≡ some k → k < next'
    over : w ≡ none → next' ≡ length items

  IsTaken-Advance :
      (next : ℕ) (w : Option ℕ) (next' : ℕ)
      → next ≤ length items
      → IsTaken next w next'
      → Advance next w next'
  IsTaken-Advance next none next' b (e, h) = record {
    rises = omega arith;
    within = omega arith;
    new = λ k l. inl (omega arith);
    below = λ k q. cc;
    over = λ q. omega arith;
  }
  IsTaken-Advance next (some i) next' b (d, e, h) = record {
    rises = omega arith;
    within = omega arith;
    new = λ k l. elim (dec_lt k next) [
      | yes m ↦ inl m
      | no m ↦ let same : i ≡ k = omega arith in inr (ap some same)
    ];
    below = λ k q. let same : i ≡ k = cc in omega arith;
    over = λ q. cc;
  }

  -- The pool after a worker has stored a result and taken the next item.
  resumed-Inv :
      (j i : ℕ) (item : T) (p : Pool R) (w : Option ℕ) (next : ℕ)
      → Inv p
      → at j p.workers ≡ some (some i)
      → at i items ≡ some item
      → Advance p.next w next
      → Inv (record {
        next = next;
        workers = set_at j w p.workers;
        results = set_at i (some (fn item)) p.results;
      })
  resumed-Inv j i item p w next inv h found adv =
      let here = at-set_at_self j w p.workers (at-lt j (some i) p.workers h) in
      let stored =
        at-set_at_self i (some (fn item)) p.results
          (omega (arith, inv.busy j i h, inv.bound, inv.size)) in
      record {
        bound = adv.within;
        size = length-set_at i (some (fn item)) p.results ∙ inv.size;
        taken = λ k below. elim (ℕ_discrete i k) [
          | yes same ↦ inr (
              ap (λ n. at n (set_at i (some (fn item)) p.results)) (sym same)
              ∙ stored
              ∙ sym (at-map (λ x. some (fn x)) i items item found)
              ∙ ap (λ n. at n finished) same)
          | no other ↦ elim (adv.new k below) [
            | inr q ↦ inl (j, here ∙ ap some q)
            | inl old ↦ elim (inv.taken k old) [
              | inr q ↦ inr (at-set_at_other i k (some (fn item)) p.results other ∙ q)
              | inl (l, q) ↦
                  inl (l, at-set_at_other j l w p.workers (λ e. other (ap_same j l e i k h q)) ∙ q)
            ]
          ]
        ];
        busy = λ l k q. elim (ℕ_discrete j l) [
          | yes same ↦ adv.below k (cc)
          | no other ↦
              omega
                (arith, adv.rises, inv.busy l k (sym (at-set_at_other j l w p.workers other) ∙ q))
        ];
        ended = λ l q. elim (ℕ_discrete j l) [
          | yes same ↦ adv.over (cc)
          | no other ↦ omega (
            arith,
            adv.rises,
            adv.within,
            inv.ended l (sym (at-set_at_other j l w p.workers other) ∙ q),
          )
        ];
      }
    where
      ap_same :
          (j l : ℕ)
          → j ≡ l
          → (i k : ℕ) → at j p.workers ≡ some (some i)
          → at l p.workers ≡ some (some k)
          → i ≡ k
      ap_same j l e i k a b = cc

  -- The pool with one more worker, which has taken the next item.
  hired-Inv :
      (p : Pool R) (w : Option ℕ) (next : ℕ)
      → Inv p
      → Advance p.next w next
      → Inv (record p { next = next; workers = p.workers ++ w ∷ [] })
  hired-Inv p w next inv adv = record {
    bound = adv.within;
    size = inv.size;
    taken = λ k below. elim (adv.new k below) [
      | inr q ↦ inl (length p.workers, at-append_self w p.workers ∙ ap some q)
      | inl old ↦ elim (inv.taken k old) [
        | inr q ↦ inr q
        | inl (l, q) ↦ inl (l, at-append_left l (some k) w p.workers q)
      ]
    ];
    busy = λ l k q. elim (at-append l (some k) w p.workers q) [
      | inl old ↦ omega (arith, adv.rises, inv.busy l k old)
      | inr new ↦ adv.below k new
    ];
    ended = λ l q. elim (at-append l none w p.workers q) [
      | inl old ↦ omega (arith, adv.rises, adv.within, inv.ended l old)
      | inr new ↦ adv.over new
    ];
  }

  -- What holds of a pool of a number of workers after a number of steps.
  record Runs (k workers : ℕ) (p : Pool R) : Type 0 where
    inv : Inv p
    staff : length p.workers ≡ workers
    steps : k + remaining p ≡ length items

  taken-Advance :
      (p : Pool R) → Inv p → let (w, next) = take_next fn items p.next in Advance p.next w next
  taken-Advance p inv =
      let (w, next) = take_next fn items p.next in
      IsTaken-Advance p.next w next inv.bound (take_next-IsTaken p.next)

  hired-remaining :
      (p : Pool R)
      → let (w, next) = take_next fn items p.next in
        remaining (record p { next = next; workers = p.workers ++ w ∷ [] }) ≡ remaining p
  unfolding take_next
  hired-remaining p = elim (Bool-cases (ltb p.next (length items))) [
    | inl b ↦ rw b (omega (arith, ltb→lt _ _ b, in_flight-append p.workers (some p.next)))
    | inr b ↦ rw b (omega (arith, in_flight-append p.workers none))
  ]

  spawn-Runs : (n m : ℕ) (p : Pool R) → Runs 0 m p → Runs 0 (n + m) (spawn fn items n p)
  unfolding spawn
  spawn-Runs zero m p r = let e : zero + m ≡ m = omega arith in rw e r
  spawn-Runs (suc n) m p r =
      let (w, next) = take_next fn items p.next in
      let e : suc n + m ≡ n + suc m = omega arith in
      rw e (
        spawn-Runs n (suc m) (record p { next = next; workers = p.workers ++ w ∷ [] })
          (record {
            inv = hired-Inv p w next r.inv (taken-Advance p r.inv);
            staff = omega (arith, length-append p.workers (w ∷ []), r.staff);
            steps = omega (arith, r.steps, hired-remaining p);
          }))

  first-Runs : Runs 0 0 (record { next = 0; workers = []; results = map (λ _. none) items })
  unfolding at
  first-Runs = record {
    inv = record {
      bound = omega arith;
      size = length-map (λ _. none) items;
      taken = λ i h. absurd (omega arith);
      busy = λ j i q. cc;
      ended = λ j q. cc;
    };
    staff = refl;
    steps = omega arith;
  }

  spawned-Runs : (limit : ℕ) → Runs 0 (min limit (length items)) (spawned fn items limit)
  unfolding spawned
  spawned-Runs limit =
      let n = min limit (length items) in
      let e : n + 0 ≡ n = omega arith in
      rw e at (
        spawn-Runs n 0 (record { next = 0; workers = []; results = map (λ _. none) items })
          first-Runs)

  resume-Runs :
      (k n j i : ℕ) (item : T) (p : Pool R)
      → at j p.workers ≡ some (some i)
      → at i items ≡ some item
      → Runs k n p
      → Runs (suc k) n (resume fn items j i (fn item) p)
  unfolding resume
  resume-Runs k n j i item p h found r =
      let (w, next) = take_next fn items p.next in
      record {
        inv = resumed-Inv j i item p w next r.inv h found (taken-Advance p r.inv);
        staff = length-set_at j w p.workers ∙ r.staff;
        steps = omega (arith, r.steps, resume-remaining j i (fn item) p r.inv h);
      }

  Step-Runs : {k n : ℕ} {p q : Pool R} → Step fn items p q → Runs k n p → Runs (suc k) n q
  Step-Runs {k} {n} {p} (wake j i item h found) r = resume-Runs k n j i item p h found r

  Run-Runs :
      {limit k : ℕ} {p : Pool R} → Run fn items limit k p → Runs k (min limit (length items)) p
  Run-Runs {limit} begin = spawned-Runs limit
  Run-Runs (then_step r s) = Step-Runs s (Run-Runs r)

  all_taken :
      (k n : ℕ) (p : Pool R)
      → Runs k n p
      → in_flight p.workers ≡ 0
      → (length items ≡ 0) ⊎ (0 < n)
      → p.next ≡ length items
  all_taken k n p r none_busy (inl e) = omega (arith, r.inv.bound)
  all_taken k n p r none_busy (inr h) =
      let (w, q) = at_of_lt 0 p.workers (omega (arith, r.staff)) in by_first w q
    where
      by_first : (w : Option ℕ) → at 0 p.workers ≡ some w → p.next ≡ length items
      by_first none q = r.inv.ended 0 q
      by_first (some i) q = absurd (omega (arith, busy_counts 0 i p.workers q))

  -- Where no worker waits, the results are there.
  idle_finished :
      (k n : ℕ) (p : Pool R)
      → Runs k n p
      → in_flight p.workers ≡ 0
      → (length items ≡ 0) ⊎ (0 < n)
      → (k ≡ length items) × (p.results ≡ finished)
  unfolding at
  idle_finished k n p r none_busy some_worker =
      let all : p.next ≡ length items = all_taken k n p r none_busy some_worker in
      (
        omega (arith, r.steps),
        at_ext p.results finished (r.inv.size ∙ sym (length-map (λ x. some (fn x)) items)) (λ i h.
            elim (r.inv.taken i (omega (arith, r.inv.size))) [
              | inl (j, q) ↦ absurd (omega (arith, busy_counts j i p.workers q))
              | inr q ↦ q
            ]),
      )

-- A run of the pool, over any items and for a positive limit, takes at most one step for each item,
-- with at most `limit` calls in flight; it can always go on until it has taken them all, and then the
-- results are those of the items, in their order.
pub map_pool_finishes :
    {T R : Type 0} (fn : T → R) (items : List T) (limit k : ℕ) (p : Pool R)
    → 0 < limit
    → Run fn items limit k p
    → (k ≤ length items)
      × (in_flight p.workers ≤ limit)
      × (((q : Pool R) × Step fn items p q)
          ⊎ ((k ≡ length items) × (p.results ≡ map (λ x. some (fn x)) items)))
map_pool_finishes fn items limit k p pos run =
    let n = min limit (length items) in
    let r = Run-Runs fn items run in
    (
      omega (arith, r.steps),
      omega (arith, in_flight-le p.workers, r.staff),
      elim (find_busy p.workers) [
        | inl (j, i, h) ↦
            let (item, found) =
              at_of_lt fn items i items (omega (arith, r.inv.busy j i h, r.inv.bound)) in
            inl (resume fn items j i (fn item) p, wake j i item h found)
        | inr e ↦ inr (
            idle_finished fn items k n p r e
              (elim (ℕ_discrete (length items) 0) [ yes q ↦ inl q | no q ↦ inr (omega arith) ]))
      ],
    )
