-- ===== src/Collector/Tests/Normalize.antt =====
-- Normalisation, deduplication and the rotation of categories.
use nfm_dashboard.Prelude.{ℕ, All, List, [], ◌∷◌, map, ◌≡◌, ◌≢◌, refl, Elem, Distinct}
use nfm_dashboard.Prelude.Text.{codes, str_discrete, str_le, truthy, decimal}
use nfm_dashboard.Prelude.Map.{get, put}
use nfm_dashboard.Collector.Types.{
  FlowEdge, data_transferred, retransmissions, metric_text, category_text,
}
use nfm_dashboard.Collector.Normalize.{
  endpoint_key, side, local_side, remote_side, normalize_row, sort_pair, edge_hash_of, dedupe_key,
  keep_best, best_of, dedupe_edges,
}
use nfm_dashboard.Collector.Normalize.Direction.{swap_row, normalize_row-swap_row}
use nfm_dashboard.Collector.Normalize.Dedupe.{HasBest, dedupe_edges_best}
use nfm_dashboard.Collector.Tests.Data.{digest, web, db, edge_of, sample_row, sample_ctx}

keys_of_endpoints : (endpoint_key web ≡ codes "pod:_/web") × (endpoint_key db ≡ codes "i:i-7")
unfolding endpoint_key truthy
keys_of_endpoints = (refl, refl)

hash_of_row : (normalize_row digest sample_row sample_ctx).edge_hash ≡ codes "i:i-7|ip:10.0.0.1|443"
unfolding normalize_row edge_hash_of sort_pair endpoint_key truthy str_le decimal
hash_of_row = refl

kept_greatest :
    dedupe_edges
      (edge_of data_transferred 5 ∷ edge_of retransmissions 1 ∷ edge_of data_transferred 7 ∷ [])
    ≡ edge_of data_transferred 7 ∷ edge_of retransmissions 1 ∷ []
unfolding dedupe_edges best_of keep_best get put dedupe_key str_discrete metric_text category_text
kept_greatest = refl

keys_differ : endpoint_key (side sample_row local_side) ≢ endpoint_key (side sample_row remote_side)
unfolding endpoint_key truthy side
keys_differ e = cc

normalize_row-swap_row_example :
    normalize_row digest (swap_row sample_row) sample_ctx
    ≡ normalize_row digest sample_row sample_ctx
normalize_row-swap_row_example = normalize_row-swap_row digest sample_row sample_ctx keys_differ

abbrev twice : List (FlowEdge ℕ)
twice = edge_of data_transferred 5 ∷ edge_of data_transferred 7 ∷ []

dedupe_edges_best_example :
    Distinct (map dedupe_key (dedupe_edges twice))
    × All (λ r. Elem r twice) (dedupe_edges twice)
    × All (λ e. HasBest e (dedupe_edges twice)) twice
dedupe_edges_best_example = dedupe_edges_best twice
