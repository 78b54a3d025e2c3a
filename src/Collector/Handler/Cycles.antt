-- ===== src/Collector/Handler/Cycles.antt =====
-- The counter of the cycles, the rotation that it drives and the DNS aggregate, over many cycles.
use nfm_dashboard.Prelude.{
  ℕ, zero, suc, ◌+◌, ◌%◌, ◌<◌, Option, none, some, List, [], ◌∷◌, ◌++◌, Bool, true, ◌==◌, or_else,
  take, length, ◌≡◌, ◌⊎◌, inl, inr, refl, ap, ◌∙◌, All, All-append, All-take, length-take, arith,
  Bool-cases, Option-cases,
}
use nfm_dashboard.Prelude.Text.{Str}
use nfm_dashboard.Prelude.Indexed.{at}
use nfm_dashboard.Collector.Types.{FlowEdge, TopologySnapshot}
use nfm_dashboard.Collector.Categories.{
  core, extended, categories_for_cycle, categories_for_cycle_rotates,
}
use nfm_dashboard.Collector.Dates.{Dates}
use nfm_dashboard.Collector.NfmQuery.{CycleStats, run_query_matrix}
use nfm_dashboard.Collector.Storage.Topology.{build_topology}
use nfm_dashboard.Collector.Alerts.{publish_reliability_alerts}
use nfm_dashboard.Collector.WiQuery.{WiResult}
use nfm_dashboard.Collector.Handler.{
  Settings, DnsResult, Write, flow_rows, history_item, latest_item, topology_item, coverage_item,
  wi_item, dns_item, MetaTable, CycleServices, apply_write, perform, optional, write_cycle,
  cycle_number, dns_writes, spec_of, after_write, roll_up, handler, run_cycles,
}

-- What the table keeps of the aggregate: the old one, or one that is enabled.
abbrev pub KeepsGood : MetaTable → MetaTable → Type 0
KeepsGood before after =
    (after.dns ≡ before.dns) ⊎ ((d : DnsResult) × (after.dns ≡ some d) × (d.enabled ≡ true))

-- Whether a write leaves the counter or sets it to a number, and writes no empty aggregate.
abbrev is_harmless : ℕ → Write → Bool
is_harmless n (latest_item ts stats cycle) = cycle == n
is_harmless n (dns_item d) = d.enabled
is_harmless n _ = true

KeepsGood-trans : (s t u : MetaTable) → KeepsGood s t → KeepsGood t u → KeepsGood s u
KeepsGood-trans s t u h (inr k) = inr k
KeepsGood-trans s t u (inl p) (inl q) = inl (q ∙ p)
KeepsGood-trans s t u (inr (d, p, e)) (inl q) = inr (d, q ∙ p, e)

-- The counter stays or is set to the number.
abbrev Counts : ℕ → MetaTable → MetaTable → Type 0
Counts n before after = (after.cycle ≡ before.cycle) ⊎ (after.cycle ≡ some n)

Counts-trans : (n : ℕ) (s t u : MetaTable) → Counts n s t → Counts n t u → Counts n s u
Counts-trans n s t u h (inr q) = inr q
Counts-trans n s t u (inl p) (inl q) = inl (q ∙ p)
Counts-trans n s t u (inr p) (inl q) = inr (q ∙ p)

apply_write-Counts :
    (n : ℕ) (w : Write) (table : MetaTable)
    → is_harmless n w ≡ true
    → Counts n table (apply_write table w) × KeepsGood table (apply_write table w)
unfolding apply_write
apply_write-Counts n (flow_rows edges) table h = (inl refl, inl refl)
apply_write-Counts n (history_item ts stats) table h = (inl refl, inl refl)
apply_write-Counts n (latest_item ts stats cycle) table h =
    let e : cycle ≡ n = ground arith in (inr (ap some e), inl refl)
apply_write-Counts n (topology_item t) table h = (inl refl, inl refl)
apply_write-Counts n (coverage_item c) table h = (inl refl, inl refl)
apply_write-Counts n (wi_item rows) table h = (inl refl, inl refl)
apply_write-Counts n (dns_item d) table h = (inl refl, inr (d, refl, h))

perform-Counts :
    (n : ℕ) (succeeds : Write → Bool) (writes : List Write) (table : MetaTable)
    → All (λ w. is_harmless n w ≡ true) writes
    → Counts n table (perform succeeds writes table).0
      × KeepsGood table (perform succeeds writes table).0
unfolding perform
perform-Counts n succeeds [] table h = (inl refl, inl refl)
perform-Counts n succeeds (w ∷ writes) table (here, h) = elim (Bool-cases (succeeds w)) [
  | inr b ↦ rw b (inl refl, inl refl)
  | inl b ↦
      let next = apply_write table w in
      let (c, g) = apply_write-Counts n w table here in
      let (c', g') = perform-Counts n succeeds writes next h in
      let final = (perform succeeds writes next).0 in
      rw b (Counts-trans n table next final c c', KeepsGood-trans table next final g g')
]

write_cycle-is_harmless :
    (edges : List (FlowEdge ℕ)) (topology : TopologySnapshot) (stats : CycleStats) (ts : Str)
    (coverage : Option Str) (n : ℕ)
    → All (λ w. is_harmless n w ≡ true) (write_cycle edges topology stats ts coverage n)
unfolding write_cycle
write_cycle-is_harmless edges topology stats ts none n =
    let e : (n == n) ≡ true = ground arith in (refl, (refl, (e, (refl, tt))))
write_cycle-is_harmless edges topology stats ts (some c) n =
    let e : (n == n) ≡ true = ground arith in (refl, (refl, (e, (refl, (refl, tt)))))

write_cycle-perform :
    (succeeds : Write → Bool)
    → ((w : Write) → succeeds w ≡ true)
    → (edges : List (FlowEdge ℕ)) (topology : TopologySnapshot) (stats : CycleStats) (ts : Str)
      (coverage : Option Str) (n : ℕ) (table : MetaTable)
    → let r = perform succeeds (write_cycle edges topology stats ts coverage n) table in
      (r.0.cycle ≡ some n) × (r.1 ≡ true)
unfolding write_cycle perform apply_write
write_cycle-perform succeeds h edges topology stats ts none n table =
    rw
      (
        h (flow_rows edges),
        h (history_item ts stats),
        h (latest_item ts stats n),
        h (topology_item topology),
      )
      (refl, refl)
write_cycle-perform succeeds h edges topology stats ts (some c) n table =
    rw
      (
        h (flow_rows edges),
        h (history_item ts stats),
        h (latest_item ts stats n),
        h (topology_item topology),
        h (coverage_item c),
      )
      (refl, refl)

wi_writes-is_harmless :
    (n : ℕ) (o : Option (List WiResult)) → All (λ w. is_harmless n w ≡ true) (optional wi_item o)
wi_writes-is_harmless n none = tt
wi_writes-is_harmless n (some rows) = (refl, tt)

dns_writes-is_harmless :
    (settings : Settings) (services : CycleServices) (n : ℕ)
    → All (λ w. is_harmless n w ≡ true) (dns_writes settings services n)
unfolding dns_writes
dns_writes-is_harmless settings services n = elim (Bool-cases (n % settings.dns_every == 0)) [
  | inr b ↦ rw (b, dns_writes) tt
  | inl b ↦ elim (Option-cases services.dns) [
    | inl e ↦ rw (b, e, dns_writes) tt
    | inr (d, e) ↦ elim (Bool-cases d.enabled) [
      | inl c ↦ rw (b, e, c, dns_writes) (refl, tt)
      | inr c ↦ rw (b, e, c, dns_writes) tt
    ]
  ]
]

later_writes-is_harmless :
    (settings : Settings) (services : CycleServices) (n : ℕ)
    → All
        (λ w. is_harmless n w ≡ true)
        (optional wi_item services.wi ++ dns_writes settings services n)
later_writes-is_harmless settings services n =
    All-append (λ w. is_harmless n w ≡ true) (optional wi_item services.wi)
      (dns_writes settings services n) (wi_writes-is_harmless n services.wi)
      (dns_writes-is_harmless settings services n)

-- A cycle that can read the counter and whose writes succeed.
pub record IsHealthy (services : CycleServices) : Type 0 where
  pub reads : services.status_read ≡ true
  pub writes : (w : Write) → services.write_succeeds w ≡ true

module _ (sha1_hex : Str → Str) (locale_lt : Str → Str → Bool) (dates : Dates) (full_iso : ℕ → Str)
    (settings : Settings) where
  after_write-Counts :
      (services : CycleServices) (edges : List (FlowEdge ℕ)) (n : ℕ) (table : MetaTable)
      → let t = (after_write sha1_hex locale_lt dates full_iso settings services edges n table).0 in
        Counts n table t × KeepsGood table t
  unfolding after_write roll_up
  after_write-Counts services edges n table =
      let outcome = publish_reliability_alerts locale_lt services.alerts edges table.alert_keys in
      let writes = optional wi_item services.wi ++ dns_writes settings services n in
      let start = record table { alert_keys = outcome.stored } in
      let r = perform services.write_succeeds writes start in
      let (c, g) =
        perform-Counts n services.write_succeeds writes start
          (later_writes-is_harmless settings services n) in
      elim (Bool-cases r.1) [ inl b ↦ rw b (c, g) | inr b ↦ rw b (c, g) ]

  -- A cycle sets the counter to its number or leaves it, and keeps a good aggregate.
  handler-Counts :
      (services : CycleServices) (table : MetaTable)
      → let t = (handler sha1_hex locale_lt dates full_iso settings services table).0 in
        Counts (cycle_number services table) table t × KeepsGood table t
  unfolding handler
  handler-Counts services table =
      let n = cycle_number services table in
      let spec = spec_of sha1_hex locale_lt dates full_iso settings services.now n in
      let (edges, stats) = run_query_matrix sha1_hex spec services.queries (services.order spec) in
      let ts = full_iso services.now in
      let topology = build_topology edges settings.clusters ts in
      let writes = write_cycle edges topology stats ts services.coverage n in
      let r = perform services.write_succeeds writes table in
      let (c, g) =
        perform-Counts n services.write_succeeds writes table
          (write_cycle-is_harmless edges topology stats ts services.coverage n) in
      elim (Bool-cases r.1) [
        | inr b ↦ rw b (c, g)
        | inl b ↦
            let t =
              (after_write sha1_hex locale_lt dates full_iso settings services edges n r.0).0 in
            let (c', g') = after_write-Counts services edges n r.0 in
            rw b (Counts-trans n table r.0 t c c', KeepsGood-trans table r.0 t g g')
      ]

  -- Where every write succeeds, the counter is the number of the cycle.
  handler-cycle :
      (services : CycleServices) (table : MetaTable)
      → ((w : Write) → services.write_succeeds w ≡ true)
      → (handler sha1_hex locale_lt dates full_iso settings services table).0.cycle
        ≡ some (cycle_number services table)
  unfolding handler
  handler-cycle services table h =
      let n = cycle_number services table in
      let spec = spec_of sha1_hex locale_lt dates full_iso settings services.now n in
      let (edges, stats) = run_query_matrix sha1_hex spec services.queries (services.order spec) in
      let ts = full_iso services.now in
      let topology = build_topology edges settings.clusters ts in
      let r =
        perform services.write_succeeds (write_cycle edges topology stats ts services.coverage n)
          table in
      let (c, b) =
        write_cycle-perform services.write_succeeds h edges topology stats ts services.coverage n
          table in
      rw b (elim (after_write-Counts services edges n r.0).0 [ inl q ↦ q ∙ c | inr q ↦ q ])

  -- Whatever the services answer, a run of cycles keeps the stored DNS aggregate or replaces it by an
  -- enabled one.
  pub run_cycles-KeepsGood :
      (cycles : List CycleServices) (table : MetaTable)
      → KeepsGood table (run_cycles sha1_hex locale_lt dates full_iso settings cycles table)
  unfolding run_cycles
  run_cycles-KeepsGood [] table = inl refl
  run_cycles-KeepsGood (services ∷ cycles) table =
      let next = (handler sha1_hex locale_lt dates full_iso settings services table).0 in
      let last = run_cycles sha1_hex locale_lt dates full_iso settings cycles next in
      KeepsGood-trans table next last (handler-Counts services table).1
        (run_cycles-KeepsGood cycles next)

  -- After cycles that can read the counter and write, the counter has grown by their number.
  run_counter :
      (cycles : List CycleServices) (table : MetaTable)
      → All IsHealthy cycles
      → or_else (run_cycles sha1_hex locale_lt dates full_iso settings cycles table).cycle 0
        ≡ or_else table.cycle 0 + length cycles
  unfolding run_cycles cycle_number
  run_counter [] table h = omega arith
  run_counter (services ∷ cycles) table (here, h) =
      let next = (handler sha1_hex locale_lt dates full_iso settings services table).0 in
      let set = handler-cycle services table here.writes in
      let one : or_else next.cycle 0 ≡ suc (or_else table.cycle 0) =
        ground (arith, set, here.reads) in
      omega (arith, run_counter cycles next h, one)

at_of_lt :
    (k : ℕ) (xs : List CycleServices)
    → All IsHealthy xs
    → k < length xs
    → (a : CycleServices) × (at k xs ≡ some a) × IsHealthy a
unfolding at
at_of_lt k [] all h = absurd (omega arith)
at_of_lt zero (x ∷ xs) (here, all) h = (x, refl, here)
at_of_lt (suc k) (x ∷ xs) (here, all) h = at_of_lt k xs all (omega arith)

-- The number that a cycle of a run has, by its place.
abbrev pub number_at :
    (Str → Str)
    → (Str → Str → Bool)
    → Dates
    → (ℕ → Str)
    → Settings
    → List CycleServices
    → MetaTable
    → ℕ
    → CycleServices
    → ℕ
number_at sha1_hex locale_lt dates full_iso settings cycles table k services =
    cycle_number services
      (run_cycles sha1_hex locale_lt dates full_iso settings (take k cycles) table)

-- Where the rotation has a positive period and the cycles can read the counter and write, among as
-- many cycles in a row as the period, from any table, there is one that queries the extended
-- categories beside the core ones.
pub run_cycles_rotates :
    (sha1_hex : Str → Str) (locale_lt : Str → Str → Bool) (dates : Dates) (full_iso : ℕ → Str)
    (settings : Settings) (cycles : List CycleServices) (table : MetaTable)
    → 0 < settings.every_n
    → length cycles ≡ settings.every_n
    → All IsHealthy cycles
    → (k : ℕ) × (services : CycleServices) × (at k cycles ≡ some services)
      × ((spec_of sha1_hex locale_lt dates full_iso settings services.now (
            number_at sha1_hex locale_lt dates full_iso settings cycles table k
              services)).categories
          ≡ core ++ extended)
unfolding cycle_number
run_cycles_rotates sha1_hex locale_lt dates full_iso settings cycles table pos enough healthy =
    let first = suc (or_else table.cycle 0) in
    let (_, (k, small, found)) = categories_for_cycle_rotates first settings.every_n pos in
    let (services, here, ok) = at_of_lt k cycles healthy (omega arith) in
    let before = run_cycles sha1_hex locale_lt dates full_iso settings (take k cycles) table in
    let count =
      run_counter sha1_hex locale_lt dates full_iso settings (take k cycles) table
        (All-take IsHealthy k cycles healthy) in
    let length_taken = length-take k cycles in
    let same : suc (or_else before.cycle 0) ≡ first + k = omega arith in
    let number : number_at sha1_hex locale_lt dates full_iso settings cycles table k services
        ≡ first + k =
      ground (arith, ok.reads, same) in
    (k, services, here, ap (λ n. categories_for_cycle n settings.every_n) number ∙ found)
