-- ===== src/Collector/Rollup/Sums.antt =====
-- What mergeHourEdges holds for each key: the sum and the number of its edges, and the edge with the
-- latest bucket.
use nfm_dashboard.Prelude.{
  ℕ, ◌+◌, none, some, List, [], ◌∷◌, true, if_pos, if_neg, ◌≡◌, ◌⊎◌, refl, sym, ◌∙◌, filter, All,
  Elem, Distinct, arith,
}
use nfm_dashboard.Prelude.Text.{Str, str_discrete, str_le, str_le_refl, str_le_trans, str_le_total}
use nfm_dashboard.Prelude.Map.{get, keys, fold_at, get-collect, collect-Distinct, Elem-get}
use nfm_dashboard.Prelude.Group.{of_key}
use nfm_dashboard.Collector.Types.{FlowEdge}
use nfm_dashboard.Collector.Rollup.{Acc, merge_key, merge_one, accumulate}

-- The raw edges with a key.
abbrev pub raws : Str → List (FlowEdge ℕ) → List (FlowEdge ℕ)
raws k = filter (of_key str_discrete merge_key k)

pub sum_of : List (FlowEdge ℕ) → ℕ
sum_of [] = 0
sum_of (e ∷ es) = e.value + sum_of es

unfoldable pub count_of : List (FlowEdge ℕ) → ℕ
count_of [] = 0
count_of (e ∷ es) = 1 + count_of es

-- What an entry says of the edges that it was made from.
pub record IsMergeOf (es : List (FlowEdge ℕ)) (x : Acc) : Type 0 where
  pub sum : x.sum ≡ sum_of es
  pub count : x.count ≡ count_of es
  pub member : Elem x.edge es
  pub bucket : x.latest_bucket ≡ x.edge.bucket
  pub latest : All (λ e. str_le e.bucket x.latest_bucket ≡ true) es

-- The same for an entry `x` that went on from `x'`.
record IsMergeFrom (x' : Acc) (es : List (FlowEdge ℕ)) (x : Acc) : Type 0 where
  sum : x.sum ≡ x'.sum + sum_of es
  count : x.count ≡ x'.count + count_of es
  member : (x.edge ≡ x'.edge) ⊎ Elem x.edge es
  bucket : x.latest_bucket ≡ x.edge.bucket
  latest : All (λ e. str_le e.bucket x.latest_bucket ≡ true) es
  grown : str_le x'.latest_bucket x.latest_bucket ≡ true

merge_one-IsMergeFrom :
    (x' x : Acc) (e : FlowEdge ℕ) (es : List (FlowEdge ℕ))
    → x'.latest_bucket ≡ x'.edge.bucket
    → IsMergeFrom (merge_one (some x') e) es x
    → IsMergeFrom x' (e ∷ es) x
unfolding merge_one sum_of count_of
merge_one-IsMergeFrom x' x e es b m = ground (
  arith,
  str_le_trans e.bucket x'.latest_bucket x.latest_bucket,
  str_le_trans x'.latest_bucket e.bucket x.latest_bucket,
  str_le_total e.bucket x'.latest_bucket,
)

merge_one-bucket :
    (x : Acc) (e : FlowEdge ℕ)
    → x.latest_bucket ≡ x.edge.bucket
    → (merge_one (some x) e).latest_bucket ≡ (merge_one (some x) e).edge.bucket
unfolding merge_one
merge_one-bucket x e h = ground arith

merge_from :
    (k : Str) (es : List (FlowEdge ℕ)) (x' : Acc)
    → x'.latest_bucket ≡ x'.edge.bucket
    → (x : Acc) × (fold_at str_discrete merge_key merge_one k es (some x') ≡ some x)
      × IsMergeFrom x' (raws k es) x
unfolding fold_at sum_of count_of
merge_from k [] x' b = (x', refl, ground (arith, str_le_refl x'.latest_bucket))
merge_from k (e ∷ es) x' b = elim (str_discrete (merge_key e) k) [
  | yes p ↦
      let (x, found, m) = merge_from k es (merge_one (some x') e) (merge_one-bucket x' e b) in
      (x, rw (if_pos, p) found, rw (if_pos, p) (merge_one-IsMergeFrom x' x e (raws k es) b m))
  | no p ↦ let (x, found, m) = merge_from k es x' b in (x, rw (if_neg, p) found, rw (if_neg, p) m)
]

merge_first :
    (e : FlowEdge ℕ) (es : List (FlowEdge ℕ)) (x : Acc)
    → IsMergeFrom (merge_one none e) es x
    → IsMergeOf (e ∷ es) x
unfolding merge_one sum_of count_of
merge_first e es x m = ground arith

-- An entry comes from the edges with its key.
fold_at-IsMergeOf :
    (k : Str) (es : List (FlowEdge ℕ)) (x : Acc)
    → fold_at str_discrete merge_key merge_one k es none ≡ some x
    → IsMergeOf (raws k es) x
unfolding fold_at
fold_at-IsMergeOf k [] x h = cc
fold_at-IsMergeOf k (e ∷ es) x h = elim (str_discrete (merge_key e) k) [
  | yes p ↦
      let (x', found, m) = merge_from k es (merge_one none e) (unfold merge_one in refl) in
      let same : x' ≡ x = ground arith in
      rw (if_pos, p) (rw same at (merge_first e (raws k es) x' m))
  | no p ↦ rw (if_neg, p) (fold_at-IsMergeOf k es x (ground arith))
]

pub accumulate-Distinct : (raw : List (FlowEdge ℕ)) → Distinct (keys (accumulate raw))
accumulate-Distinct raw = collect-Distinct str_discrete merge_key merge_one raw [] tt

-- Each entry of the accumulator was made from the raw edges with its key.
pub accumulate-IsMergeOf :
    (raw : List (FlowEdge ℕ)) (k : Str) (x : Acc)
    → Elem (k, x) (accumulate raw)
    → IsMergeOf (raws k raw) x
unfolding get
accumulate-IsMergeOf raw k x m = fold_at-IsMergeOf k raw x (
    sym (get-collect str_discrete merge_key merge_one k raw [])
    ∙ Elem-get str_discrete k x _ (accumulate-Distinct raw) m)
