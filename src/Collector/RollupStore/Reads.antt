-- ===== src/Collector/RollupStore/Reads.antt =====
-- What a read of partitions that succeeds has read: every page of every partition.
use mathlib.Core.List.{append_assoc}
use nfm_dashboard.Prelude.{
  ℕ, ◌+◌, ◌*◌, ◌<◌, some, List, [], ◌∷◌, ◌++◌, map, Elem-flat_map, ◌≡◌, inl, inr, refl, ◌∙◌, All,
  All-of_Elem, Elem, Elem-map_of, arith, Option-cases,
}
use nfm_dashboard.Prelude.Text.{Str, codes}
use nfm_dashboard.Collector.Types.{FlowEdge}
use nfm_dashboard.Collector.Dates.{Dates}
use nfm_dashboard.Collector.Rollup.{grid, five_min_buckets_of_hour, five_min_ms}
use nfm_dashboard.Collector.Rollup.Hours.{Elem-grid, Elem-texts}
use nfm_dashboard.Collector.RollupStore.{
  Pages, failed, last, page, read_pages, read_partitions, partitions_of,
}

-- Every page was answered, and the rows are those of the pages in turn.
abbrev pub IsRead : {A : Type 0} → Pages A → List A → Type 0
IsRead failed rows = ⊥
IsRead (last r) rows = rows ≡ r
IsRead {A} (page r p) rows = (rest : List A) × IsRead p rest × (rows ≡ r ++ rest)

read_pages-IsRead :
    {A : Type 0} (items : List A) (p : Pages A) (all : List A)
    → read_pages items p ≡ some all
    → (rows : List A) × IsRead p rows × (all ≡ items ++ rows)
unfolding read_pages
read_pages-IsRead items failed all e = cc
read_pages-IsRead items (last r) all e = (r, refl, cc)
read_pages-IsRead items (page r p) all e =
    let (rows, read, q) = read_pages-IsRead (items ++ r) p all e in
    (r ++ rows, (rows, read, refl), q ∙ append_assoc items r rows)

-- Every partition was read, and `raw` are the rows of the partitions in turn.
abbrev pub AllRead : (Str → Pages (FlowEdge ℕ)) → List Str → List (FlowEdge ℕ) → Type 0
AllRead partition [] raw = raw ≡ []
AllRead partition (pk ∷ pks) raw =
    (rows : List (FlowEdge ℕ)) × (rest : List (FlowEdge ℕ)) × IsRead (partition pk) rows
    × AllRead partition pks rest
    × (raw ≡ rows ++ rest)

pub read_partitions-AllRead :
    (partition : Str → Pages (FlowEdge ℕ)) (pks : List Str) (raw : List (FlowEdge ℕ))
    → read_partitions partition pks ≡ some raw
    → AllRead partition pks raw
unfolding read_partitions
read_partitions-AllRead partition [] raw e = cc
read_partitions-AllRead partition (pk ∷ pks) raw e =
    elim (Option-cases (read_pages [] (partition pk))) [
      | inl n ↦ let f = rw (n, read_partitions) at e in cc
      | inr (rows, r) ↦ elim (Option-cases (read_partitions partition pks)) [
        | inl n ↦ let f = rw (r, n, read_partitions) at e in cc
        | inr (rest, q) ↦
            let f = rw (r, q, read_partitions) at e in
            let (rows', read, same) = read_pages-IsRead [] (partition pk) rows r in
            let joined : raw ≡ rows' ++ rest = cc in
            (rows', rest, read, read_partitions-AllRead partition pks rest q, joined)
      ]
    ]

-- The partition of a bucket of an hour, by the number of the bucket, and a monitor.
abbrev pub partition_at : Dates → Str → ℕ → Str → Str
partition_at dates hour i monitor =
    codes "FLOW#" ++ dates.iso (dates.parse hour + i * 300_000) ++ codes "#" ++ monitor

abbrev pub twelve : List ℕ
twelve = 0 ∷ 1 ∷ 2 ∷ 3 ∷ 4 ∷ 5 ∷ 6 ∷ 7 ∷ 8 ∷ 9 ∷ 10 ∷ 11 ∷ []

-- Among the partitions are those of each of the 12 buckets of the hour and each monitor.
abbrev pub Covers : Dates → List Str → Str → List Str → Type 0
Covers dates monitors hour pks =
    All (λ m. All (λ i. Elem (partition_at dates hour i m) pks) twelve) monitors

pub partitions_of-Covers :
    (dates : Dates) (monitors : List Str) (hour : Str)
    → Covers dates monitors hour (partitions_of dates monitors hour)
unfolding five_min_buckets_of_hour
partitions_of-Covers dates monitors hour = All-of_Elem _ monitors (λ m j.
    All-of_Elem _ twelve (λ i k.
      let less : i < 12 = ground arith in
      let start = dates.parse hour in
      let bucket = dates.iso (dates.parse hour + i * 300_000) in
      let key = λ (b m : Str). codes "FLOW#" ++ b ++ codes "#" ++ m in
      Elem-flat_map (λ b. map (key b) monitors) (five_min_buckets_of_hour dates hour) bucket
        (key bucket m)
        (Elem-texts dates (grid start five_min_ms 12) (start + i * five_min_ms)
          (Elem-grid dates start five_min_ms 12 i less))
        (Elem-map_of (key bucket) monitors m j)))
