-- ===== src/Collector/Tests/Storage.antt =====
-- The writes of a cycle and of a rollup.
use mathlib.Core.List.{Perm}
use mathlib.Core.List.Perm
use nfm_dashboard.Prelude.{
  ℕ, ◌+◌, ◌*◌, ◌/◌, ◌≤◌, some, List, [], ◌∷◌, map, flat_map, length, true, ◌++◌, sym, ◌≡◌, ◌⊎◌,
  refl, All, Elem, Distinct,
}
use nfm_dashboard.Prelude.Text.{Str, codes}
use nfm_dashboard.Prelude.Map.{values}
use nfm_dashboard.Collector.Types.{FlowEdge, data_transferred, round_trip_time}
use nfm_dashboard.Collector.Normalize.{dedupe_edges}
use nfm_dashboard.Collector.Storage.Batch.{
  Table, batch_write_all, rounds_of, send_chunks, send_chunk,
}
use nfm_dashboard.Collector.Storage.Batch.Accounts.{IsAccount, batch_write_all_accounts}
use nfm_dashboard.Collector.Storage.Batch.Requests.{IsRequest, batch_write_all_requests}
use nfm_dashboard.Collector.Storage.Items.{flow_item, primary_key}
use nfm_dashboard.Collector.Storage.Items.Keys.{plain, dedupe_edges-flow_items}
use nfm_dashboard.Collector.Storage.Topology.{
  max_edges, build_topology, ends_of, prev_metric, bytes_of, merged_by_hash,
}
use nfm_dashboard.Collector.Storage.Topology.Closed.{build_topology_closed}
use nfm_dashboard.Collector.Storage.Topology.Merged.{
  summary, observed, with_hash, build_topology_totals, build_topology_heaviest,
}
use nfm_dashboard.Collector.RollupStore.{last, HourServices, rollup_ttl_seconds, run_rollup_step}
use nfm_dashboard.Collector.RollupStore.Complete.{IsSafe, run_rollup_step_complete}
use nfm_dashboard.Collector.Rollup.{hour_ms}
use nfm_dashboard.Collector.Tests.Data.{edge_of, unit_dates}

abbrev first_of : {A : Type 0} → List A → List A
first_of [] = []
first_of (x ∷ xs) = x ∷ []

abbrev rest_of : {A : Type 0} → List A → List A
rest_of [] = []
rest_of (x ∷ xs) = xs

first_of-rest_of :
    {A : Type 0} (xs ys : List A) → some (rest_of xs) ≡ some ys → Perm (first_of xs ++ ys) xs
first_of-rest_of xs ys e = rw (sym (some_inj e)) (whole xs)
  where
    some_inj : {A : Type 0} {a b : List A} → some a ≡ some b → a ≡ b
    some_inj e = cc

    whole : {A : Type 0} (xs : List A) → Perm (first_of xs ++ rest_of xs) xs
    whole [] = Perm.rfl
    whole (x ∷ xs) = Perm.rfl

-- A table that takes the first item of each request.
abbrev one_by_one : {A : Type 0} → Table A
one_by_one = record {
  unprocessed = λ n sent. some (rest_of sent);
  stored = λ n sent. first_of sent;
  splits = λ n sent left e. first_of-rest_of sent left e;
}

abbrev five : List ℕ
five = 1 ∷ 2 ∷ 3 ∷ 4 ∷ 5 ∷ []

one_is_dropped : (batch_write_all one_by_one five).dropped ≡ some 1
unfolding batch_write_all send_chunks send_chunk
one_is_dropped = refl

batch_write_all_accounts_example : IsAccount 4 five (batch_write_all one_by_one five) 1
batch_write_all_accounts_example = batch_write_all_accounts one_by_one five 1 one_is_dropped

batch_write_all_requests_example :
    All IsRequest (batch_write_all one_by_one five).requests
    × (length (batch_write_all one_by_one five).requests ≤ 4 * rounds_of five)
batch_write_all_requests_example = batch_write_all_requests one_by_one five

abbrev edges : List (FlowEdge ℕ)
edges = edge_of data_transferred 3 ∷ edge_of round_trip_time 10 ∷ edge_of data_transferred 4 ∷ []

plain_buckets : All (λ e. plain e.bucket ≡ true) edges
unfolding plain
plain_buckets = (refl, (refl, (refl, tt)))

dedupe_edges-flow_items_example :
    Distinct (map (λ e. primary_key (flow_item e 60)) (dedupe_edges edges))
dedupe_edges-flow_items_example = dedupe_edges-flow_items edges 60 plain_buckets

abbrev carried : List (Str × Str)
carried = (codes "gsi1pk", codes "POD#_/web") ∷ []

build_topology_closed_example :
    let t = build_topology edges [] (codes "now") in
    let ids = map (λ n. n.id) t.nodes in
    All (λ x. Elem x.source ids × Elem x.target ids) t.edges
    × All (λ n. Elem n.id (flat_map ends_of t.edges)) t.nodes
    × Distinct ids
    × Distinct (map (λ x. x.id) t.edges)
    × (length t.edges ≤ max_edges)
build_topology_closed_example = build_topology_closed edges [] (codes "now")

build_topology_totals_example :
    All
      (λ x.
        prev_metric data_transferred x.metrics
        ≡ summary data_transferred (observed data_transferred (with_hash x.id edges)))
      (build_topology edges [] (codes "now")).edges
build_topology_totals_example = build_topology_totals edges [] (codes "now") data_transferred

build_topology_heaviest_example :
    All
      (λ y.
        Elem y (build_topology edges [] (codes "now")).edges
        ⊎ All (λ x. bytes_of y ≤ bytes_of x) (build_topology edges [] (codes "now")).edges)
      (values (merged_by_hash edges))
build_topology_heaviest_example = build_topology_heaviest edges [] (codes "now")

pub hour_services : Str → HourServices
hour_services hour = record {
  partition = λ pk. last edges;
  table = one_by_one;
  marker_succeeds = true;
  carried = λ e. [];
}

abbrev monitors : List Str
monitors = codes "m" ∷ []

run_rollup_step_complete_example :
    All
      (IsSafe unit_dates hour_services monitors (1_000 * hour_ms / 1000 + rollup_ttl_seconds))
      (run_rollup_step unit_dates (last []) hour_services monitors (1_000 * hour_ms))
run_rollup_step_complete_example =
    run_rollup_step_complete unit_dates (last []) hour_services monitors (1_000 * hour_ms)
