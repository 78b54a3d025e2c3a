-- ===== src/Dashboard/Tiers/Filtered.antt =====
-- What a filtered topology keeps.
use nfm_dashboard.Prelude.{
  Option, List, [], ◌∷◌, filter, flat_map, length, Bool, true, ◌&&◌, ◌==◌, if◌then◌else◌, All, Elem,
}
use nfm_dashboard.Prelude.Text.{Str}
use nfm_dashboard.Collector.Types.{DestCategory}
use nfm_dashboard.Dashboard.Snapshot.{Edge, Topology}
use nfm_dashboard.Dashboard.Tiers.{ids_of, has_ends, is_category, cluster_nodes, cluster_edges}

abbrev pub IsClosed : Topology → Type 0
IsClosed topo =
    All (λ e. Elem e.source (ids_of topo.nodes) × Elem e.target (ids_of topo.nodes)) topo.edges

-- Whether an edge passes both filters.
abbrev pub passes : Topology → Str → Option DestCategory → Edge → Bool
passes topo cluster category e =
    is_category category e
    && (if length cluster == 0
        then true
        else has_ends (ids_of (cluster_nodes cluster topo.nodes)) e)

abbrev edges_left : Topology → Str → Option DestCategory → List Edge
edges_left topo cluster category =
    filter (is_category category) (cluster_edges cluster topo.nodes topo.edges)

abbrev referenced : List Edge → List Str
referenced edges = flat_map (λ e. e.source ∷ e.target ∷ []) edges
