-- ===== src/Dashboard/Tests/Reads.antt =====
-- The rows of a pod from two pages and one, of which one row comes twice.
use nfm_dashboard.Prelude.{some, List, [], ◌∷◌, map, Bool, not, ◌≡◌, refl}
use nfm_dashboard.Prelude.Text.{Str, codes, str_discrete, str_le, truthy}
use nfm_dashboard.Prelude.Map.{get, put}
use nfm_dashboard.Prelude.Sort.{sort, insert}
use nfm_dashboard.Dashboard.Reads.{StoredFlow, row_key, seen_rows, query_pages, query_pod_flows}
use nfm_dashboard.Dashboard.Tests.Movers.{flow}

abbrev by_units : Str → Str → Bool
by_units s t = not (str_le t s)

abbrev stored : Str → Str → StoredFlow
stored key bucket = record {
  flow = record (flow 1) { bucket = bucket };
  pk = some key;
  sk = some (codes "m");
}

abbrev source_pages : List (List StoredFlow)
source_pages =
    (stored (codes "a") (codes "T1") ∷ [])
    ∷ (stored (codes "b") (codes "T3") ∷ stored (codes "c") (codes "T0") ∷ [])
    ∷ []

abbrev dest_pages : List (List StoredFlow)
dest_pages = (stored (codes "b") (codes "T3") ∷ []) ∷ []

newest_two :
    map row_key (query_pod_flows by_units source_pages dest_pages 2)
    ≡ codes "b|m" ∷ codes "a|m" ∷ []
unfolding query_pod_flows query_pages seen_rows row_key truthy get put sort insert str_discrete
    str_le
newest_two = refl
