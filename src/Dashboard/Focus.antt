-- ===== src/Dashboard/Focus.antt =====
-- The neighbourhood of a node that the graph isolates: app/src/lib/graph-focus.ts.
pub mod Reach
use nfm_dashboard.Prelude.{
  ℕ, zero, suc, List, [], ◌∷◌, Bool, not, ◌&&◌, if◌then◌else◌, length, ◌==◌,
}
use nfm_dashboard.Prelude.Text.{Str, str_discrete}
use nfm_dashboard.Prelude.Set.{contains, add, add_all}

pub record EdgeLike : Type 0 where
  pub id : Str
  pub source : Str
  pub target : Str

pub record NeighborsResult : Type 0 where
  pub node_ids : List Str
  pub edge_ids : List Str

abbrev pub has : List Str → Str → Bool
has ids k = contains str_discrete k ids

abbrev pub add_if : Bool → Str → List Str → List Str
add_if b k ids = if b then add str_discrete ids k else ids

-- Whether the target of an edge is discovered from its source, and the source from its target.
abbrev pub forth : List Str → List Str → EdgeLike → Bool
forth node_ids frontier e = has frontier e.source && not (has node_ids e.target)

abbrev pub back : List Str → List Str → EdgeLike → Bool
back node_ids frontier e = has frontier e.target && not (has node_ids e.source)

-- The other ends of the edges that touch the frontier and that are new.
unfoldable pub next_from : List Str → List Str → List EdgeLike → List Str → List Str
next_from node_ids frontier [] next = next
next_from node_ids frontier (e ∷ edges) next =
    next_from node_ids frontier edges (
      add_if (back node_ids frontier e) e.source (add_if (forth node_ids frontier e) e.target next))

-- The rounds that are left; an empty frontier ends the loop.
unfoldable pub rings : List EdgeLike → ℕ → List Str → List Str → List Str
unfolding next_from
rings edges zero node_ids frontier = node_ids
rings edges (suc hops) node_ids frontier =
    let next = next_from node_ids frontier edges [] in
    let wider = rings edges hops (add_all str_discrete node_ids next) next in
    if length frontier == 0 then node_ids else wider

unfoldable pub induced : List Str → List EdgeLike → List Str → List Str
induced node_ids [] edge_ids = edge_ids
induced node_ids (e ∷ edges) edge_ids =
    induced node_ids edges (add_if (has node_ids e.source && has node_ids e.target) e.id edge_ids)

unfoldable pub neighbors : List EdgeLike → Str → ℕ → NeighborsResult
unfolding rings induced
neighbors edges node_id hops =
    let node_ids = rings edges hops (node_id ∷ []) (node_id ∷ []) in
    record { node_ids = node_ids; edge_ids = induced node_ids edges [] }
