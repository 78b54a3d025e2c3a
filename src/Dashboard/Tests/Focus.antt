-- ===== src/Dashboard/Tests/Focus.antt =====
-- A path of three edges.
use nfm_dashboard.Prelude.{List, [], ◌∷◌, Elem, ◌≡◌, ◌↔◌, refl}
use nfm_dashboard.Prelude.Text.{Str, codes, str_discrete}
use nfm_dashboard.Prelude.Set.{contains, add, add_all}
use nfm_dashboard.Dashboard.Focus.{EdgeLike, neighbors, rings, next_from}
use nfm_dashboard.Dashboard.Focus.Reach.{Within, neighbors_exact}

abbrev edge : Str → Str → EdgeLike
edge s t = record { id = s; source = s; target = t }

abbrev path : List EdgeLike
path =
    edge (codes "a") (codes "b") ∷ edge (codes "b") (codes "c") ∷ edge (codes "c") (codes "d") ∷ []

two_hops : (neighbors path (codes "a") 2).node_ids ≡ codes "a" ∷ codes "b" ∷ codes "c" ∷ []
unfolding neighbors rings next_from contains add add_all str_discrete
two_hops = refl

neighbors_exact_example :
    let r = neighbors path (codes "a") 2 in
    (Elem (codes "c") r.node_ids ↔ Within path (codes "a") 2 (codes "c"))
    × (Elem (codes "c") r.edge_ids ↔ (
        (e : EdgeLike) × Elem e path
        × (codes "c" ≡ e.id)
        × Elem e.source r.node_ids
        × Elem e.target r.node_ids))
neighbors_exact_example = neighbors_exact path (codes "a") 2 (codes "c")
