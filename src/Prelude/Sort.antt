-- ===== src/Prelude/Sort.antt =====
-- `Array.prototype.sort`: a stable sort by a comparator, given as the test `compare(a, b) < 0`.
use mathlib.Core.Path.{◌≡◌, refl, ap, sym, ◌∙◌}
use mathlib.Core.Logic.{◌⊎◌, inl, inr}
use Prim.Native.Nat.{ℕ, zero, suc}
use mathlib.Core.Bool.{Bool, true, false}
use mathlib.Core.List.{List, [], ◌∷◌, map, Perm}
use mathlib.Core.List.Perm
use native.Mathlib.Omega.{arith}
use nfm_dashboard.Prelude.Tests.{if◌then◌else◌, Bool-cases}
use nfm_dashboard.Prelude.Lists.{All, All-Elem, Elem, Distinct, length, take}

module _ {ℓ} {A : Type ℓ} (before : A → A → Bool) where
  unfoldable pub insert : A → List A → List A
  insert x [] = x ∷ []
  insert x (y ∷ ys) = if before y x then y ∷ insert x ys else x ∷ y ∷ ys

  unfoldable pub sort : List A → List A
  unfolding insert
  sort [] = []
  sort (x ∷ xs) = insert x (sort xs)

  -- No element comes before one that stands to its left.
  abbrev pub IsSorted : List A → Type ℓ
  IsSorted [] = Unit
  IsSorted (x ∷ xs) = All (λ y. before y x ≡ false) xs × IsSorted xs

  pub All-insert : (P : A → Type 0) (x : A) (ys : List A) → P x → All P ys → All P (insert x ys)
  unfolding insert
  All-insert P x [] p h = (p, tt)
  All-insert P x (y ∷ ys) p h = ground (arith, All-insert P x ys p)

  pub All-sort : (P : A → Type 0) (xs : List A) → All P xs → All P (sort xs)
  unfolding sort
  All-sort P [] h = tt
  All-sort P (x ∷ xs) (p, h) = All-insert P x (sort xs) p (All-sort P xs h)

  insert-perm : (x : A) (ys : List A) → Perm (insert x ys) (x ∷ ys)
  unfolding insert
  insert-perm x [] = Perm.rfl
  insert-perm x (y ∷ ys) = elim (Bool-cases (before y x)) [
    | inl e ↦ rw e (Perm.trans (Perm.cons y (insert-perm x ys)) (Perm.swap x y ys))
    | inr e ↦ rw e Perm.rfl
  ]

  -- Sorting rearranges.
  pub sort-perm : (xs : List A) → Perm (sort xs) xs
  unfolding sort
  sort-perm [] = Perm.rfl
  sort-perm (x ∷ xs) = Perm.trans (insert-perm x (sort xs)) (Perm.cons x (sort-perm xs))

  length-insert : (x : A) (ys : List A) → length (insert x ys) ≡ suc (length ys)
  unfolding insert
  length-insert x [] = refl
  length-insert x (y ∷ ys) = ground (arith, length-insert x ys)

  pub length-sort : (xs : List A) → length (sort xs) ≡ length xs
  unfolding sort
  length-sort [] = refl
  length-sort (x ∷ xs) = length-insert x (sort xs) ∙ ap suc (length-sort xs)

  insert_of_IsSorted :
      (x : A) (ys : List A) → All (λ y. before y x ≡ false) ys → insert x ys ≡ x ∷ ys
  unfolding insert
  insert_of_IsSorted x [] h = refl
  insert_of_IsSorted x (y ∷ ys) h = ground arith

  -- Sorting a sorted list changes nothing.
  pub sort_of_IsSorted : (xs : List A) → IsSorted xs → sort xs ≡ xs
  unfolding sort
  sort_of_IsSorted [] s = refl
  sort_of_IsSorted (x ∷ xs) (h, s) = rw (sort_of_IsSorted xs s) (insert_of_IsSorted x xs h)

  -- What a comparator must obey for its sort to be sorted.
  pub record IsComparator : Type ℓ where
    pub asymm : (x y : A) → before x y ≡ true → before y x ≡ false
    pub trans : (x y z : A) → before y x ≡ false → before z y ≡ false → before z x ≡ false

  module _ (c : IsComparator) where
    All-above :
        (x y : A) (zs : List A)
        → before y x ≡ false
        → All (λ z. before z y ≡ false) zs
        → All (λ z. before z x ≡ false) zs
    All-above x y [] h k = tt
    All-above x y (z ∷ zs) h (k, ks) = (c.trans x y z h k, All-above x y zs h ks)

    insert-IsSorted : (x : A) (ys : List A) → IsSorted ys → IsSorted (insert x ys)
    unfolding insert
    insert-IsSorted x [] s = (tt, tt)
    insert-IsSorted x (y ∷ ys) (h, s) = elim (Bool-cases (before y x)) [
      | inl e ↦
          rw e (All-insert (λ z. before z y ≡ false) x ys (c.asymm y x e) h, insert-IsSorted x ys s)
      | inr e ↦ rw e ((e, All-above x y ys e h), (h, s))
    ]

    -- Sorting by a comparator that is a weak order yields a sorted list.
    pub sort-IsSorted : (xs : List A) → IsSorted (sort xs)
    unfolding sort
    sort-IsSorted [] = tt
    sort-IsSorted (x ∷ xs) = insert-IsSorted x (sort xs) (sort-IsSorted xs)

module _ {A : Type 0} (before : A → A → Bool) where
  Elem-insert : (x : A) (ys : List A) (a : A) → Elem a (insert before x ys) → (a ≡ x) ⊎ Elem a ys
  unfolding insert
  Elem-insert x [] a m = m
  Elem-insert x (y ∷ ys) a m = ground (arith, Elem-insert x ys a)

  Elem-insert_of : (x : A) (ys : List A) (a : A) → (a ≡ x) ⊎ Elem a ys → Elem a (insert before x ys)
  unfolding insert
  Elem-insert_of x [] a m = m
  Elem-insert_of x (y ∷ ys) a m = ground (arith, Elem-insert_of x ys a)

  pub Elem-sort : (xs : List A) (a : A) → Elem a (sort before xs) → Elem a xs
  unfolding sort
  Elem-sort [] a m = m
  Elem-sort (x ∷ xs) a m = elim (Elem-insert x (sort before xs) a m) [
    | inl e ↦ inl e
    | inr k ↦ inr (Elem-sort xs a k)
  ]

  pub Elem-sort_of : (xs : List A) (a : A) → Elem a xs → Elem a (sort before xs)
  unfolding sort
  Elem-sort_of [] a m = m
  Elem-sort_of (x ∷ xs) a (inl e) = Elem-insert_of x (sort before xs) a (inl e)
  Elem-sort_of (x ∷ xs) a (inr m) = Elem-insert_of x (sort before xs) a (inr (Elem-sort_of xs a m))

module _ {A B : Type 0} (before : A → A → Bool) (f : A → B) where
  Elem-map-insert :
      (x : A) (ys : List A) (b : B)
      → Elem b (map f (insert before x ys))
      → (b ≡ f x) ⊎ Elem b (map f ys)
  unfolding insert
  Elem-map-insert x [] b m = m
  Elem-map-insert x (y ∷ ys) b m = ground (arith, Elem-map-insert x ys b)

  insert-Distinct :
      (x : A) (ys : List A)
      → ¬ Elem (f x) (map f ys)
      → Distinct (map f ys)
      → Distinct (map f (insert before x ys))
  unfolding insert
  insert-Distinct x [] n d = (n, d)
  insert-Distinct x (y ∷ ys) n (h, d) = elim (Bool-cases (before y x)) [
    | inl e ↦ rw e (
      λ m. elim (Elem-map-insert x ys (f y) m) [ inl p ↦ n (inl (sym p)) | inr i ↦ h i ],
      insert-Distinct x ys (λ i. n (inr i)) d,
    )
    | inr e ↦ rw e (n, (h, d))
  ]

  Elem-map-sort : (xs : List A) (b : B) → Elem b (map f (sort before xs)) → Elem b (map f xs)
  unfolding sort
  Elem-map-sort [] b m = m
  Elem-map-sort (x ∷ xs) b m = elim (Elem-map-insert x (sort before xs) b m) [
    | inl p ↦ inl p
    | inr i ↦ inr (Elem-map-sort xs b i)
  ]

  -- Sorting keeps the values of a field distinct.
  pub sort-Distinct : (xs : List A) → Distinct (map f xs) → Distinct (map f (sort before xs))
  unfolding sort
  sort-Distinct [] d = d
  sort-Distinct (x ∷ xs) (n, d) =
      insert-Distinct x (sort before xs) (λ m. n (Elem-map-sort xs (f x) m)) (sort-Distinct xs d)

-- In a sorted list an element is among the first `n` or none of these comes after it.
module _ {A : Type 0} (before : A → A → Bool) where
  pub take-IsSorted_first :
      (n : ℕ) (xs : List A) (y : A)
      → IsSorted before xs
      → Elem y xs
      → Elem y (take n xs) ⊎ All (λ x. before y x ≡ false) (take n xs)
  take-IsSorted_first zero xs y s m = inr tt
  take-IsSorted_first (suc n) [] y s m = absurd m
  take-IsSorted_first (suc n) (x ∷ xs) y (h, s) (inl p) = inl (inl p)
  take-IsSorted_first (suc n) (x ∷ xs) y (h, s) (inr m) = elim (take-IsSorted_first n xs y s m) [
    | inl i ↦ inl (inr i)
    | inr k ↦ inr (All-Elem (λ z. before z x ≡ false) xs y h m, k)
  ]
