-- ===== src/Prelude/SortOn.antt =====
-- Sorting by a test that is a weak order on elements of a kind, and the cut of what is sorted.
use mathlib.Core.Path.{subst}
use nfm_dashboard.Prelude.{
  ℕ, zero, suc, Bool, true, false, List, [], ◌∷◌, ◌++◌, ◌≡◌, inl, inr, refl, ap, take, All,
  All-Elem, All-of_Elem, All-take, Elem, Elem-append_right, Bool-cases,
}
use nfm_dashboard.Prelude.Sort.{insert, All-insert, sort, IsSorted, All-sort}

module _ {A : Type 0} (before : A → A → Bool) where
  pub record IsComparatorOn (P : A → Type 0) : Type 0 where
    pub asymm : (x y : A) → before x y ≡ true → before y x ≡ false
    pub trans : (x y z : A) → P y → before y x ≡ false → before z y ≡ false → before z x ≡ false

  module _ (P : A → Type 0) (c : IsComparatorOn P) where
    All-above_on :
        (x y : A) (zs : List A)
        → P y
        → before y x ≡ false
        → All (λ z. before z y ≡ false) zs
        → All (λ z. before z x ≡ false) zs
    All-above_on x y [] p h k = tt
    All-above_on x y (z ∷ zs) p h (k, ks) = (c.trans x y z p h k, All-above_on x y zs p h ks)

    insert-IsSorted_on :
        (x : A) (ys : List A) → All P ys → IsSorted before ys → IsSorted before (insert before x ys)
    unfolding insert
    insert-IsSorted_on x [] p s = (tt, tt)
    insert-IsSorted_on x (y ∷ ys) (p, ps) (h, s) = elim (Bool-cases (before y x)) [
      | inl e ↦ rw e (
        All-insert before (λ z. before z y ≡ false) x ys (c.asymm y x e) h,
        insert-IsSorted_on x ys ps s,
      )
      | inr e ↦ rw e ((e, All-above_on x y ys p e h), (h, s))
    ]

    pub sort-IsSorted_on : (xs : List A) → All P xs → IsSorted before (sort before xs)
    unfolding sort
    sort-IsSorted_on [] ps = tt
    sort-IsSorted_on (x ∷ xs) (p, ps) =
        insert-IsSorted_on x (sort before xs) (All-sort before P xs ps) (sort-IsSorted_on xs ps)

  -- The first elements of a sorted list are sorted, and come before the others.
  pub take-IsSorted_rest :
      (n : ℕ) (xs : List A)
      → IsSorted before xs
      → (rest : List A) × (take n xs ++ rest ≡ xs)
        × IsSorted before (take n xs)
        × All (λ r. All (λ k. before r k ≡ false) (take n xs)) rest
  take-IsSorted_rest zero xs s = (xs, refl, tt, All-of_Elem _ xs (λ r m. tt))
  take-IsSorted_rest (suc n) [] s = ([], refl, tt, tt)
  take-IsSorted_rest (suc n) (x ∷ xs) (h, s) =
      let (rest, e, sorted, d) = take-IsSorted_rest n xs s in
      (
        rest,
        ap (◌∷◌ x) e,
        (All-take (λ y. before y x ≡ false) n xs h, sorted),
        All-of_Elem _ rest (λ r m. (
          All-Elem (λ y. before y x ≡ false) xs r h
              (subst (Elem r) e (Elem-append_right (take n xs) rest r m)),
          All-Elem (λ r. All (λ k. before r k ≡ false) (take n xs)) rest r d m,
        )),
      )
