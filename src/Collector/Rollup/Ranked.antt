-- ===== src/Collector/Rollup/Ranked.antt =====
-- The cut of mergeHourEdges: of each group the first edges in the order of their values.
use mathlib.Core.Path.{subst}
use mathlib.Core.List.{append-nil}
use nfm_dashboard.Prelude.{
  ℕ, zero, suc, List, [], ◌∷◌, Bool, true, false, if_pos, if_neg, ◌≡◌, ◌≢◌, inl, inr, refl, sym, ap,
  ◌∙◌, if◌then◌else◌, or_else, filter, take, All, Distinct, Bool-cases, Option-cases, All-take,
  All-imp, All-of_Elem, filter-append, filter_of_All, filter_of_none, All-filter,
}
use nfm_dashboard.Prelude.Text.{Str, str_discrete}
use nfm_dashboard.Prelude.Map.{keys, values, get, get-Elem, Elem-keys}
use nfm_dashboard.Prelude.Set.{contains, contains_of_not-Elem, not-Elem_of_contains}
use nfm_dashboard.Prelude.Group.{
  group_by, of_key, key_of_key, get-group_by, group_by-Distinct, group_by-Elem,
}
use nfm_dashboard.Prelude.Sort.{sort, All-sort}
use nfm_dashboard.Prelude.Ratio.{Ratio}
use nfm_dashboard.Collector.Types.{FlowEdge}
use nfm_dashboard.Collector.Rollup.{group_key, greater_first, top_of_groups, merge_hour_edges}
use nfm_dashboard.Collector.Rollup.Groups.{hour_edges, top}

abbrev in_group : Str → FlowEdge Ratio → Bool
in_group = of_key str_discrete group_key

abbrev pub group_of : Str → List (FlowEdge Ratio) → List (FlowEdge Ratio)
group_of k = filter (of_key str_discrete group_key k)

in_group_ne : (k g : Str) (h : FlowEdge Ratio) → k ≢ g → in_group k h ≡ true → in_group g h ≡ false
in_group_ne k g h ne e =
    let p = key_of_key str_discrete group_key k h e in
    if_neg (str_discrete (group_key h) g) (λ q. ne (sym p ∙ q)) true false

-- The greatest of a group belong to it.
top-in_group :
    (n : ℕ) (k : Str) (es : List (FlowEdge Ratio))
    → All (λ h. in_group k h ≡ true) (top n (group_of k es))
top-in_group n k es =
    All-take (λ h. in_group k h ≡ true) n _
      (All-sort greater_first (λ h. in_group k h ≡ true) _ (All-filter (in_group k) es))

-- The groups of `es`, each with the edges of its key.
abbrev AreGroups : List (FlowEdge Ratio) → List (Str × List (FlowEdge Ratio)) → Type 0
AreGroups es = All (λ x. x.1 ≡ group_of x.0 es)

group_of-top_of_groups :
    (n : ℕ) (g : Str) (es : List (FlowEdge Ratio)) (m : List (Str × List (FlowEdge Ratio)))
    → Distinct (keys m)
    → AreGroups es m
    → group_of g (top_of_groups n (values m))
      ≡ (if contains str_discrete g (keys m) then top n (group_of g es) else [])
unfolding top_of_groups contains
group_of-top_of_groups n g es [] d h = refl
group_of-top_of_groups n g es ((k, group) ∷ m) (absent, d) (e, h) =
    let rest = group_of-top_of_groups n g es m d h in
    let part = top-in_group n k es in
    rw (e, filter-append (in_group g) (top n (group_of k es)) (top_of_groups n (values m)))
      (elim (str_discrete k g) [
        | yes p ↦
            let fresh =
              subst (λ j. contains str_discrete j (keys m) ≡ false) p
                (contains_of_not-Elem str_discrete k (keys m) absent) in
            let own =
              filter_of_All (in_group g) (top n (group_of k es))
                (subst (λ j. All (λ h. in_group j h ≡ true) (top n (group_of k es))) p part) in
            rw (if_pos, p, own, rest, fresh) (append-nil _ ∙ ap (λ j. top n (group_of j es)) p)
        | no p ↦
            let other =
              filter_of_none (in_group g) (top n (group_of k es))
                (All-imp _ _ _ (λ h q. in_group_ne k g h p q) part) in
            rw (if_neg, p, other) rest
      ])

take_nil : (n : ℕ) → take {A = FlowEdge Ratio} n [] ≡ []
take_nil zero = refl
take_nil (suc n) = refl

-- Where a key has no group, no edge has it.
no_group :
    (n : ℕ) (g : Str) (es : List (FlowEdge Ratio))
    → contains str_discrete g (keys (group_by str_discrete group_key es)) ≡ false
    → [] ≡ top n (group_of g es)
unfolding sort
no_group n g es e =
    let absent = not-Elem_of_contains str_discrete g _ e in
    elim (Option-cases (get str_discrete g (group_by str_discrete group_key es))) [
      | inl q ↦
          let empty = sym (get-group_by str_discrete group_key g es) ∙ ap (λ o. or_else o []) q in
          rw empty (sym (take_nil n))
      | inr (x, q) ↦ absurd (absent (Elem-keys str_discrete g x _ (get-Elem str_discrete g x _ q)))
    ]

-- For each group (monitor, metric and category), the edges that are returned of it are the first
-- `cap` of its edges when they are sorted by value, greatest first, and in that order.
pub merge_hour_edges-top :
    (raw : List (FlowEdge ℕ)) (hour : Str) (n : ℕ) (g : Str)
    → group_of g (merge_hour_edges raw hour n)
      ≡ take n (sort greater_first (group_of g (hour_edges raw hour)))
unfolding merge_hour_edges
merge_hour_edges-top raw hour n g =
    let es = hour_edges raw hour in
    let groups = group_by str_discrete group_key es in
    let cut =
      group_of-top_of_groups n g es groups (group_by-Distinct str_discrete group_key es)
        (All-of_Elem _ groups (λ x m. group_by-Elem str_discrete group_key es x.0 x.1 m)) in
    elim (Bool-cases (contains str_discrete g (keys groups))) [
      | inl e ↦ cut ∙ rw e
      | inr e ↦ cut ∙ rw e (no_group n g es e)
    ]
