-- ===== src/Dashboard/Focus/Reach.antt =====
-- The nodes are those within reach, and the edges are those between them.
use mathlib.Core.Path.{subst}
use nfm_dashboard.Prelude.{
  ℕ, zero, suc, ◌+◌, List, [], ◌∷◌, Bool, true, false, ◌&&◌, length, ◌==◌, ◌≡◌, ◌⊎◌, ◌↔◌, inl, inr,
  refl, sym, ap, ◌∙◌, Elem, Bool-cases, arith,
}
use nfm_dashboard.Prelude.Text.{Str, str_discrete}
use nfm_dashboard.Prelude.Set.{
  contains→Elem, Elem→contains, Elem-add, Elem-add_of, add_all, Elem-add_all, Elem-add_all_of,
}
use nfm_dashboard.Dashboard.Focus.{
  EdgeLike, has, add_if, forth, back, next_from, rings, induced, neighbors,
}

-- An edge joins two nodes in either direction.
abbrev pub IsJoined : EdgeLike → Str → Str → Type 0
IsJoined e k l = ((k ≡ e.source) × (l ≡ e.target)) ⊎ ((k ≡ e.target) × (l ≡ e.source))

-- A node within a number of hops of another one.
pub data Within (edges : List EdgeLike) (start : Str) : ℕ → Str → Type 0 where
  here : {n : ℕ} {k : Str} → k ≡ start → Within edges start n k
  hop :
      {n : ℕ} {k l : Str} (e : EdgeLike)
      → Elem e edges
      → Within edges start n k
      → IsJoined e k l
      → Within edges start (suc n) l

Elem-add_if :
    (b : Bool) (k : Str) (ids : List Str) (x : Str)
    → Elem x (add_if b k ids)
    → ((b ≡ true) × (x ≡ k)) ⊎ Elem x ids
Elem-add_if true k ids x m = elim (Elem-add str_discrete ids k x m) [
  | inl e ↦ inl (refl, e)
  | inr i ↦ inr i
]
Elem-add_if false k ids x m = inr m

Elem-add_if_of :
    (b : Bool) (k : Str) (ids : List Str) (x : Str)
    → ((b ≡ true) × (x ≡ k)) ⊎ Elem x ids
    → Elem x (add_if b k ids)
Elem-add_if_of true k ids x (inl (q, e)) = Elem-add_of str_discrete ids k x (inl e)
Elem-add_if_of true k ids x (inr i) = Elem-add_of str_discrete ids k x (inr i)
Elem-add_if_of false k ids x (inl (q, e)) = cc
Elem-add_if_of false k ids x (inr i) = i

-- The edges that are returned are those with both ends among the nodes.
induced_iff :
    (nodes : List Str) (es : List EdgeLike) (ids : List Str) (x : Str)
    → Elem x (induced nodes es ids)
    → Elem x ids
      ⊎ ((e : EdgeLike) × Elem e es × (x ≡ e.id) × Elem e.source nodes × Elem e.target nodes)
unfolding induced
induced_iff nodes [] ids x m = inl m
induced_iff nodes (e ∷ es) ids x m =
    let both = has nodes e.source && has nodes e.target in
    elim (induced_iff nodes es (add_if both e.id ids) x m) [
      | inl i ↦ elim (Elem-add_if both e.id ids x i) [
        | inl (b, p) ↦ inr (
          e,
          inl refl,
          p,
          contains→Elem str_discrete e.source nodes (ground arith),
          contains→Elem str_discrete e.target nodes (ground arith),
        )
        | inr j ↦ inl j
      ]
      | inr (f, i, p, q, r) ↦ inr (f, inr i, p, q, r)
    ]

induced_of :
    (nodes : List Str) (es : List EdgeLike) (ids : List Str) (x : Str)
    → Elem x ids
      ⊎ ((e : EdgeLike) × Elem e es × (x ≡ e.id) × Elem e.source nodes × Elem e.target nodes)
    → Elem x (induced nodes es ids)
unfolding induced
induced_of nodes [] ids x (inl i) = i
induced_of nodes [] ids x (inr (e, i, p, q, r)) = absurd i
induced_of nodes (e ∷ es) ids x (inl i) =
    induced_of nodes es _ x
      (inl (Elem-add_if_of (has nodes e.source && has nodes e.target) e.id ids x (inr i)))
induced_of nodes (e ∷ es) ids x (inr (f, inr i, p, q, r)) =
    induced_of nodes es _ x (inr (f, i, p, q, r))
induced_of nodes (e ∷ es) ids x (inr (f, inl q, p, s, t)) =
    let in_source =
      Elem→contains str_discrete e.source nodes (subst (λ g. Elem g.source nodes) q s) in
    let in_target =
      Elem→contains str_discrete e.target nodes (subst (λ g. Elem g.target nodes) q t) in
    induced_of nodes es _ x (
      inl (
        Elem-add_if_of (has nodes e.source && has nodes e.target) e.id ids x
          (inl (ground arith, p ∙ ap (λ (g : EdgeLike). g.id) q))))

-- A new other end of an edge that touches the frontier.
abbrev IsNext : List Str → List Str → List EdgeLike → Str → Type 0
IsNext ids frontier es x = (e : EdgeLike) × (k : Str) × Elem e es × Elem k frontier × IsJoined e k x

Elem-next_from :
    (ids frontier : List Str) (es : List EdgeLike) (next : List Str) (x : Str)
    → Elem x (next_from ids frontier es next)
    → Elem x next ⊎ IsNext ids frontier es x
unfolding next_from
Elem-next_from ids frontier [] next x m = inl m
Elem-next_from ids frontier (e ∷ es) next x m =
    elim (Elem-next_from ids frontier es
      (add_if (back ids frontier e) e.source (add_if (forth ids frontier e) e.target next)) x m) [
        | inl i ↦
            elim (Elem-add_if (back ids frontier e) e.source
              (add_if (forth ids frontier e) e.target next) x i) [
                | inl (b, p) ↦ inr (
                  e,
                  e.target,
                  inl refl,
                  contains→Elem str_discrete e.target frontier (ground arith),
                  inr (refl, p),
                )
                | inr j ↦ elim (Elem-add_if (forth ids frontier e) e.target next x j) [
                  | inl (b, p) ↦ inr (
                    e,
                    e.source,
                    inl refl,
                    contains→Elem str_discrete e.source frontier (ground arith),
                    inl (refl, p),
                  )
                  | inr k ↦ inl k
                ]
              ]
        | inr (f, k, i, j, joined) ↦ inr (f, k, inr i, j, joined)
      ]

Elem-next_from_of :
    (ids frontier : List Str) (es : List EdgeLike) (next : List Str) (x : Str)
    → has ids x ≡ false
    → Elem x next ⊎ IsNext ids frontier es x
    → Elem x (next_from ids frontier es next)
unfolding next_from
Elem-next_from_of ids frontier [] next x new (inl i) = i
Elem-next_from_of ids frontier [] next x new (inr (e, k, i, j, joined)) = absurd i
Elem-next_from_of ids frontier (e ∷ es) next x new (inl i) =
    Elem-next_from_of ids frontier es _ x new (
      inl (
        Elem-add_if_of (back ids frontier e) e.source (add_if (forth ids frontier e) e.target next)
          x (inr (Elem-add_if_of (forth ids frontier e) e.target next x (inr i)))))
Elem-next_from_of ids frontier (e ∷ es) next x new (inr (f, k, inr i, j, joined)) =
    Elem-next_from_of ids frontier es _ x new (inr (f, k, i, j, joined))
Elem-next_from_of ids frontier (e ∷ es) next x new (inr (f, k, inl q, j, inl (p, r))) =
    let s : k ≡ e.source = p ∙ ap (λ (g : EdgeLike). g.source) q in
    let t : x ≡ e.target = r ∙ ap (λ (g : EdgeLike). g.target) q in
    let touched = Elem→contains str_discrete e.source frontier (subst (λ y. Elem y frontier) s j) in
    let fresh : has ids e.target ≡ false = rw (sym t) new in
    let b : forth ids frontier e ≡ true = ground arith in
    Elem-next_from_of ids frontier es _ x new (
      inl (
        Elem-add_if_of (back ids frontier e) e.source (add_if (forth ids frontier e) e.target next)
          x (inr (Elem-add_if_of (forth ids frontier e) e.target next x (inl (b, t))))))
Elem-next_from_of ids frontier (e ∷ es) next x new (inr (f, k, inl q, j, inr (p, r))) =
    let s : k ≡ e.target = p ∙ ap (λ (g : EdgeLike). g.target) q in
    let t : x ≡ e.source = r ∙ ap (λ (g : EdgeLike). g.source) q in
    let touched = Elem→contains str_discrete e.target frontier (subst (λ y. Elem y frontier) s j) in
    let fresh : has ids e.source ≡ false = rw (sym t) new in
    let b : back ids frontier e ≡ true = ground arith in
    Elem-next_from_of ids frontier es _ x new (
      inl (
        Elem-add_if_of (back ids frontier e) e.source (add_if (forth ids frontier e) e.target next)
          x (inl (b, t))))

module _ (edges : List EdgeLike) (start : Str) where
  weaken : {n : ℕ} {k : Str} → Within edges start n k → Within edges start (suc n) k
  weaken (here e) = here e
  weaken (hop e i w j) = hop e i (weaken w) j

  weaken_by : (n d : ℕ) {k : Str} → Within edges start d k → Within edges start (n + d) k
  weaken_by zero d w = let e : zero + d ≡ d = omega arith in rw e w
  weaken_by (suc n) d w =
      let e : suc n + d ≡ suc (n + d) = omega arith in rw e (weaken (weaken_by n d w))

  next-Within :
      (d : ℕ) (ids frontier : List Str)
      → ((k : Str) → Elem k frontier → Within edges start d k)
      → (x : Str) → Elem x (next_from ids frontier edges [])
      → Within edges start (suc d) x
  next-Within d ids frontier g x m = elim (Elem-next_from ids frontier edges [] x m) [
    | inl i ↦ absurd i
    | inr (e, k, i, j, joined) ↦ hop e i (g k j) joined
  ]

  -- No node beyond reach is added.
  rings-Within :
      (hops d : ℕ) (ids frontier : List Str)
      → ((k : Str) → Elem k ids → Within edges start d k)
      → ((k : Str) → Elem k frontier → Within edges start d k)
      → (x : Str) → Elem x (rings edges hops ids frontier)
      → Within edges start (hops + d) x
  unfolding rings
  rings-Within zero d ids frontier h g x m = weaken_by zero d (h x m)
  rings-Within (suc hops) d ids frontier h g x m = elim (Bool-cases (length frontier == 0)) [
    | inl e ↦ weaken_by (suc hops) d (h x (rw (e, rings) at m))
    | inr e ↦
        let next = next_from ids frontier edges [] in
        let same : suc hops + d ≡ hops + suc d = omega arith in
        rw same (
          rings-Within hops (suc d) (add_all str_discrete ids next) next
            (λ k i. elim (Elem-add_all str_discrete ids next k i) [
              | inl j ↦ weaken (h k j)
              | inr j ↦ next-Within d ids frontier g k j
            ])
            (next-Within d ids frontier g) x (rw (e, rings) at m))
  ]

  -- Every neighbour of a node that is not in the frontier is there.
  abbrev IsClosed : List Str → List Str → Type 0
  IsClosed ids frontier =
      (k x : Str) (e : EdgeLike)
      → Elem k ids
      → Elem e edges
      → IsJoined e k x
      → Elem k frontier ⊎ Elem x ids

  -- The neighbours of the nodes are there after a round.
  round_covers :
      (ids frontier : List Str)
      → IsClosed ids frontier
      → (k x : Str) (e : EdgeLike) → Elem k ids
      → Elem e edges
      → IsJoined e k x
      → Elem x (add_all str_discrete ids (next_from ids frontier edges []))
  round_covers ids frontier c k x e i j joined =
      let next = next_from ids frontier edges [] in
      elim (Bool-cases (has ids x)) [
        | inl seen ↦
            Elem-add_all_of str_discrete ids next x (inl (contains→Elem str_discrete x ids seen))
        | inr new ↦ elim (c k x e i j joined) [
          | inl l ↦
              Elem-add_all_of str_discrete ids next x
                (inr (Elem-next_from_of ids frontier edges [] x new (inr (e, k, j, l, joined))))
          | inr l ↦ Elem-add_all_of str_discrete ids next x (inl l)
        ]
      ]

  closed_all :
      (ids : List Str)
      → Elem start ids
      → IsClosed ids []
      → {n : ℕ} {k : Str} → Within edges start n k
      → Elem k ids
  closed_all ids s c (here e) = rw e s
  closed_all ids s c (hop {k = k} {l = l} e i w joined) =
      elim (c k l e (closed_all ids s c w) i joined) [ inl x ↦ absurd x | inr x ↦ x ]

  empty : (xs : List Str) → (length xs == 0) ≡ true → xs ≡ []
  empty [] h = refl
  empty (x ∷ xs) h = ground arith

  -- Every node within reach is there.
  rings_cover :
      (hops d : ℕ) (ids frontier : List Str)
      → Elem start ids
      → IsClosed ids frontier
      → ((k : Str) → Within edges start d k → Elem k ids)
      → (x : Str) → Within edges start (hops + d) x
      → Elem x (rings edges hops ids frontier)
  unfolding rings
  rings_cover zero d ids frontier s c h x w = let e : zero + d ≡ d = omega arith in h x (rw e at w)
  rings_cover (suc hops) d ids frontier s c h x w = elim (Bool-cases (length frontier == 0)) [
    | inl e ↦ rw (e, rings) (closed_all ids s (subst (IsClosed ids) (empty frontier e) c) w)
    | inr e ↦
        let next = next_from ids frontier edges [] in
        let ids' = add_all str_discrete ids next in
        let kept : (k : Str) → Elem k ids → Elem k ids' =
          λ k i. Elem-add_all_of str_discrete ids next k (inl i) in
        let same : suc hops + d ≡ hops + suc d = omega arith in
        rw (e, rings)
          (rings_cover hops (suc d) ids' next (kept start s)
            (λ k y f i j joined. elim (Elem-add_all str_discrete ids next k i) [
              | inl l ↦ inr (round_covers ids frontier c k y f l j joined)
              | inr l ↦ inl l
            ])
            (λ k v. reached ids frontier s c h k v) x (rw same at w))
  ]
    where
      reached :
          (ids frontier : List Str)
          → Elem start ids
          → IsClosed ids frontier
          → ((k : Str) → Within edges start d k → Elem k ids)
          → (k : Str) → Within edges start (suc d) k
          → Elem k (add_all str_discrete ids (next_from ids frontier edges []))
      reached ids frontier s c h k (here e) = Elem-add_all_of str_discrete ids _ k (inl (rw e s))
      reached ids frontier s c h k (hop {k = j} e i v joined) =
          round_covers ids frontier c j k e (h j v) i joined

start_only : (edges : List EdgeLike) (start k : Str) → Within edges start 0 k → Elem k (start ∷ [])
start_only edges start k (here e) = inl e

-- The nodes are exactly those within the number of hops, and the edges are exactly the identifiers of
-- the edges between two of these.
pub neighbors_exact :
    (edges : List EdgeLike) (node_id : Str) (hops : ℕ) (x : Str)
    → let r = neighbors edges node_id hops in
      (Elem x r.node_ids ↔ Within edges node_id hops x)
      × (Elem x r.edge_ids ↔ (
          (e : EdgeLike) × Elem e edges
          × (x ≡ e.id)
          × Elem e.source r.node_ids
          × Elem e.target r.node_ids))
unfolding neighbors
neighbors_exact edges node_id hops x =
    let first = node_id ∷ [] in
    let nodes = rings edges hops first first in
    let e : hops + 0 ≡ hops = omega arith in
    (
      (
        λ m.
            rw e at
              (rings-Within edges node_id hops 0 first first (only node_id) (only node_id) x m),
        λ w.
            rings_cover edges node_id hops 0 first first (inl refl) (λ k y f i j joined. inl i)
              (start_only edges node_id) x (subst (λ n. Within edges node_id n x) (sym e) w),
      ),
      (
        λ m. elim (induced_iff nodes edges [] x m) [ inl i ↦ absurd i | inr r ↦ r ],
        λ r. induced_of nodes edges [] x (inr r),
      ),
    )
  where
    only : (start k : Str) → Elem k (start ∷ []) → Within edges start 0 k
    only start k (inl p) = here p
    only start k (inr i) = absurd i
