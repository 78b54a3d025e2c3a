-- ===== src/Collector/Rollup/Cells.antt =====
-- The cut of mergeHourEdges, cell by cell: which edges of a monitor, a metric and a category are kept.
use mathlib.Core.List.{append_assoc, Perm}
use nfm_dashboard.Prelude.{
  ℕ, ◌*◌, ◌≤◌, ◌<◌, min, List, [], ◌∷◌, ◌++◌, Bool, true, false, not, ◌&&◌, ◌==◌, ◌≡◌, ◌↔◌, refl,
  sym, ap, ◌∙◌, if_pos, filter, take, length, length-take, All, All-imp, All-of_Elem, All-Elem,
  Elem, Elem-filter, arith,
}
use nfm_dashboard.Prelude.Text.{Str, codes, str_discrete}
use nfm_dashboard.Prelude.Group.{of_key, key_of_key}
use nfm_dashboard.Prelude.Sort.{sort, sort-perm, length-sort, IsSorted}
use nfm_dashboard.Prelude.SortOn.{IsComparatorOn, sort-IsSorted_on, take-IsSorted_rest}
use nfm_dashboard.Prelude.Ratio.{Ratio, ratio-le, ratio_lt_le, ratio_le_trans}
use nfm_dashboard.Collector.Types.{MetricName, DestCategory, FlowEdge, metric_text, category_text}
use nfm_dashboard.Collector.Rollup.{group_key, merge_key, greater_first, merge_hour_edges}
use nfm_dashboard.Collector.Rollup.Sums.{raws, count_of}
use nfm_dashboard.Collector.Rollup.Groups.{hour_edges, hour_value, hour_edges-IsHourOf}
use nfm_dashboard.Collector.Rollup.Ranked.{group_of, merge_hour_edges-top}

abbrev pub IsOf : Str → MetricName → DestCategory → FlowEdge Ratio → Type 0
IsOf monitor metric category h =
    (h.monitor ≡ monitor) × (h.metric ≡ metric) × (h.category ≡ category)

-- The value of the first is not over that of the second.
abbrev pub NotOver : FlowEdge Ratio → FlowEdge Ratio → Type 0
NotOver y x = y.value.num * x.value.den ≤ x.value.num * y.value.den

-- The greatest value first.
abbrev pub IsDescending : List (FlowEdge Ratio) → Type 0
IsDescending [] = Unit
IsDescending (x ∷ xs) = All (λ y. NotOver y x) xs × IsDescending xs

-- Without the separator of the keys, whose code is 124.
unfoldable plain : Str → Bool
plain [] = true
plain (c ∷ s) = not (c == 124) && plain s

-- A part without the separator has none in it.
not_plain : (a t : Str) → plain (a ++ 124 ∷ t) ≡ false
unfolding plain
not_plain [] t = refl
not_plain (c ∷ a) t = ground (arith, not_plain a t)

split_last :
    (a a' t t' : Str)
    → plain t ≡ true
    → plain t' ≡ true
    → a ++ 124 ∷ t ≡ a' ++ 124 ∷ t'
    → (a ≡ a') × (t ≡ t')
split_last [] [] t t' p q e = ground arith
split_last [] (c ∷ a') t t' p q e =
    let same : t ≡ a' ++ 124 ∷ t' = cc in
    let bad : false ≡ true = sym (not_plain a' t') ∙ ap plain (sym same) ∙ p in cc
split_last (c ∷ a) [] t t' p q e =
    let same : a ++ 124 ∷ t ≡ t' = cc in
    let bad : false ≡ true = sym (not_plain a t) ∙ ap plain same ∙ q in cc
split_last (c ∷ a) (c' ∷ a') t t' p q e =
    let tails : a ++ 124 ∷ t ≡ a' ++ 124 ∷ t' = cc in
    let (x, y) = split_last a a' t t' p q tails in (cc, y)

metric_text-plain : (m : MetricName) → plain (metric_text m) ≡ true
unfolding plain metric_text
metric_text-plain m = ground arith

category_text-plain : (c : DestCategory) → plain (category_text c) ≡ true
unfolding plain category_text
category_text-plain c = ground arith

metric_text_inj : (m n : MetricName) → metric_text m ≡ metric_text n → m ≡ n
unfolding metric_text
metric_text_inj m n e = ground arith

category_text_inj : (c d : DestCategory) → category_text c ≡ category_text d → c ≡ d
unfolding category_text
category_text_inj c d e = ground arith

-- The key of a cell, and the edges that have it.
abbrev cell_key : Str → MetricName → DestCategory → Str
cell_key monitor metric category =
    monitor ++ codes "|" ++ metric_text metric ++ codes "|" ++ category_text category

cell_key_inj :
    (m m' : Str) (x x' : MetricName) (c c' : DestCategory)
    → cell_key m x c ≡ cell_key m' x' c'
    → (m ≡ m') × (x ≡ x') × (c ≡ c')
cell_key_inj m m' x x' c c' e =
    let front = m ++ codes "|" ++ metric_text x in
    let front' = m' ++ codes "|" ++ metric_text x' in
    let (p, q) =
      split_last front front' (category_text c) (category_text c') (category_text-plain c)
        (category_text-plain c')
        (sym (append_assoc front (codes "|") (category_text c))
          ∙ e
          ∙ append_assoc front' (codes "|") (category_text c')) in
    let (r, s) =
      split_last m m' (metric_text x) (metric_text x') (metric_text-plain x) (metric_text-plain x')
        (sym (append_assoc m (codes "|") (metric_text x))
          ∙ p
          ∙ append_assoc m' (codes "|") (metric_text x')) in
    (r, metric_text_inj x x' s, category_text_inj c c' q)

of_key-IsOf :
    (m : Str) (x : MetricName) (c : DestCategory) (h : FlowEdge Ratio)
    → (of_key str_discrete group_key (cell_key m x c) h ≡ true) ↔ IsOf m x c h
unfolding group_key
of_key-IsOf m x c h = (
  λ e.
      cell_key_inj h.monitor m h.metric x h.category c
        (key_of_key str_discrete group_key (cell_key m x c) h e),
  λ (p, q, r).
      let same : group_key h ≡ cell_key m x c = rw (p, q, r) refl in
      if_pos (str_discrete (group_key h) (cell_key m x c)) same true false,
)

-- Values with positive denominators are ordered.
abbrev IsPositive : FlowEdge Ratio → Type 0
IsPositive h = 0 < h.value.den

greater_first-IsComparatorOn : IsComparatorOn greater_first IsPositive
unfolding greater_first
greater_first-IsComparatorOn = record {
  asymm = λ x y h. ratio_lt_le y.value x.value h;
  trans = λ x y z p h k. ratio_le_trans z.value y.value x.value p k h;
}

count_of_pos : (es : List (FlowEdge ℕ)) (e : FlowEdge ℕ) → Elem e es → 0 < count_of es
unfolding count_of
count_of_pos [] e m = absurd m
count_of_pos (x ∷ es) e m = omega arith

value_pos :
    (metric : MetricName) (es : List (FlowEdge ℕ)) (h : FlowEdge Ratio)
    → h.value ≡ hour_value metric es
    → 0 < count_of es
    → IsPositive h
unfolding hour_value
value_pos metric es h e p = ground (arith, e)

hour_edges_pos : (raw : List (FlowEdge ℕ)) (hour : Str) → All IsPositive (hour_edges raw hour)
hour_edges_pos raw hour = All-of_Elem _ (hour_edges raw hour) (λ h m.
    let of = hour_edges-IsHourOf raw hour h m in
    let pos = count_of_pos (raws (merge_key h) raw) of.latest of.member in
    value_pos h.metric (raws (merge_key h) raw) h of.value pos)

greater_first-NotOver : (y x : FlowEdge Ratio) → greater_first y x ≡ false → NotOver y x
unfolding greater_first
greater_first-NotOver y x h = ratio-le y.value x.value h

IsSorted-IsDescending : (xs : List (FlowEdge Ratio)) → IsSorted greater_first xs → IsDescending xs
IsSorted-IsDescending [] s = tt
IsSorted-IsDescending (x ∷ xs) (h, s) =
    (All-imp _ _ xs (λ y. greater_first-NotOver y x) h, IsSorted-IsDescending xs s)

-- Of each monitor, metric and category, the edges that are returned are as many as the cap allows, the
-- greatest value first; with the others they are all its edges of the hour, and none of the others has a
-- greater value than one that is returned.
pub merge_hour_edges_cells :
    (raw : List (FlowEdge ℕ)) (hour : Str) (n : ℕ) (monitor : Str) (metric : MetricName)
    (category : DestCategory)
    → (q : FlowEdge Ratio → Bool) × (others : List (FlowEdge Ratio)) × ((h : FlowEdge Ratio)
        → (q h ≡ true) ↔ IsOf monitor metric category h)
      × Perm (filter q (merge_hour_edges raw hour n) ++ others) (filter q (hour_edges raw hour))
      × (length (filter q (merge_hour_edges raw hour n))
          ≡ min n (length (filter q (hour_edges raw hour))))
      × IsDescending (filter q (merge_hour_edges raw hour n))
      × All (λ y. All (NotOver y) (filter q (merge_hour_edges raw hour n))) others
merge_hour_edges_cells raw hour n monitor metric category =
    let g = cell_key monitor metric category in
    let q = of_key str_discrete group_key g in
    let whole = group_of g (hour_edges raw hour) in
    let ranked = sort greater_first whole in
    let pos = All-of_Elem IsPositive whole (λ h m.
      All-Elem IsPositive (hour_edges raw hour) h (hour_edges_pos raw hour)
        (Elem-filter q (hour_edges raw hour) h m).0) in
    let sorted = sort-IsSorted_on greater_first IsPositive greater_first-IsComparatorOn whole pos in
    let (others, joined, kept, after) = take-IsSorted_rest greater_first n ranked sorted in
    let same = merge_hour_edges-top raw hour n g in
    let last =
      All-imp _ _ others (λ y h. All-imp _ _ (take n ranked) (λ x. greater_first-NotOver y x) h)
        after in
    (
      q,
      others,
      of_key-IsOf monitor metric category,
      rw (same, joined) (sort-perm greater_first whole),
      ap length same ∙ length-take n ranked ∙ ap (min n) (length-sort greater_first whole),
      rw same (IsSorted-IsDescending (take n ranked) kept),
      rw same last,
    )
