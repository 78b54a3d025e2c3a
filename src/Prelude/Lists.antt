-- ===== src/Prelude/Lists.antt =====
-- Lists measured by native numbers, and predicates on lists by recursion, which the tactics read.
use Prim.Native.Nat.{ℕ, zero, suc, ◌+◌, ◌-◌, ◌≤◌, min}
use mathlib.Core.Path.{◌≡◌, refl, ap, subst, sym, ◌∙◌}
use mathlib.Core.Logic.{◌⊎◌, inl, inr}
use mathlib.Core.Bool.{Bool, true, false, ◌||◌}
use mathlib.Core.List.{List, [], ◌∷◌, ◌++◌, map}
use native.Mathlib.Omega.{arith}
use nfm_dashboard.Prelude.Tests.{if◌then◌else◌}

module _ {ℓ} {A : Type ℓ} where
  abbrev pub length : List A → ℕ
  length [] = 0
  length (x ∷ xs) = suc (length xs)

  abbrev pub take : ℕ → List A → List A
  take zero xs = []
  take (suc n) [] = []
  take (suc n) (x ∷ xs) = x ∷ take n xs

  abbrev pub drop : ℕ → List A → List A
  drop zero xs = xs
  drop (suc n) [] = []
  drop (suc n) (x ∷ xs) = drop n xs

  -- `xs.filter(p)`
  abbrev pub filter : (A → Bool) → List A → List A
  filter p [] = []
  filter p (x ∷ xs) = if p x then x ∷ filter p xs else filter p xs

  -- `xs.some(p)`
  abbrev pub any : (A → Bool) → List A → Bool
  any p [] = false
  any p (x ∷ xs) = p x || any p xs

  -- `xs.flatMap(f)`
  abbrev pub flat_map {κ} : {B : Type κ} → (A → List B) → List A → List B
  flat_map f [] = []
  flat_map f (x ∷ xs) = f x ++ flat_map f xs

-- Predicates of the program's data, which stands in `Type 0`.
module _ {A : Type 0} where
  -- Membership with its position kept.
  abbrev pub Elem : A → List A → Type 0
  Elem a [] = ⊥
  Elem a (x ∷ xs) = (a ≡ x) ⊎ Elem a xs

  -- No element stands twice.
  abbrev pub Distinct : List A → Type 0
  Distinct [] = Unit
  Distinct (x ∷ xs) = (¬ Elem x xs) × Distinct xs

module _ {ℓ κ} {A : Type ℓ} (P : A → Type κ) where
  abbrev pub All : List A → Type κ
  All [] = Unit
  All (x ∷ xs) = P x × All xs

  pub All-append : (xs ys : List A) → All xs → All ys → All (xs ++ ys)
  All-append [] ys h k = k
  All-append (x ∷ xs) ys (p, h) k = (p, All-append xs ys h k)

  pub All-take : (n : ℕ) (xs : List A) → All xs → All (take n xs)
  All-take zero xs h = tt
  All-take (suc n) [] h = tt
  All-take (suc n) (x ∷ xs) (p, h) = (p, All-take n xs h)

module _ {κ} {A : Type 0} (P : A → Type κ) where
  pub All-Elem : (xs : List A) (a : A) → All P xs → Elem a xs → P a
  All-Elem [] a h m = absurd m
  All-Elem (x ∷ xs) a (p, h) (inl e) = subst P (sym e) p
  All-Elem (x ∷ xs) a (p, h) (inr m) = All-Elem xs a h m

  pub All-of_Elem : (xs : List A) → ((a : A) → Elem a xs → P a) → All P xs
  All-of_Elem [] f = tt
  All-of_Elem (x ∷ xs) f = (f x (inl refl), All-of_Elem xs (λ a m. f a (inr m)))

module _ {ℓ} {A : Type ℓ} where
  pub length-append : (xs ys : List A) → length (xs ++ ys) ≡ length xs + length ys
  length-append [] ys = omega arith
  length-append (x ∷ xs) ys = omega (arith, length-append xs ys)

  pub length-take-le : (n : ℕ) (xs : List A) → length (take n xs) ≤ n
  length-take-le zero xs = omega arith
  length-take-le (suc n) [] = omega arith
  length-take-le (suc n) (x ∷ xs) = omega (arith, length-take-le n xs)

  pub length-take : (n : ℕ) (xs : List A) → length (take n xs) ≡ min n (length xs)
  length-take zero xs = omega arith
  length-take (suc n) [] = omega arith
  length-take (suc n) (x ∷ xs) = omega (arith, length-take n xs)

  pub length-drop : (n : ℕ) (xs : List A) → length (drop n xs) ≡ length xs - n
  length-drop zero xs = omega arith
  length-drop (suc n) [] = omega arith
  length-drop (suc n) (x ∷ xs) = omega (arith, length-drop n xs)

  pub take-append-drop : (n : ℕ) (xs : List A) → take n xs ++ drop n xs ≡ xs
  take-append-drop zero xs = refl
  take-append-drop (suc n) [] = refl
  take-append-drop (suc n) (x ∷ xs) = ap (◌∷◌ x) (take-append-drop n xs)

module _ {A : Type 0} where
  pub Elem-take : (n : ℕ) (xs : List A) (a : A) → Elem a (take n xs) → Elem a xs
  Elem-take zero xs a m = absurd m
  Elem-take (suc n) [] a m = absurd m
  Elem-take (suc n) (x ∷ xs) a (inl e) = inl e
  Elem-take (suc n) (x ∷ xs) a (inr m) = inr (Elem-take n xs a m)

  pub Distinct-take : (n : ℕ) (xs : List A) → Distinct xs → Distinct (take n xs)
  Distinct-take zero xs d = tt
  Distinct-take (suc n) [] d = tt
  Distinct-take (suc n) (x ∷ xs) (h, d) = (λ m. h (Elem-take n xs x m), Distinct-take n xs d)

  pub Elem-append_left : (xs ys : List A) (a : A) → Elem a xs → Elem a (xs ++ ys)
  Elem-append_left [] ys a m = absurd m
  Elem-append_left (x ∷ xs) ys a (inl e) = inl e
  Elem-append_left (x ∷ xs) ys a (inr m) = inr (Elem-append_left xs ys a m)

  pub Elem-append_right : (xs ys : List A) (a : A) → Elem a ys → Elem a (xs ++ ys)
  Elem-append_right [] ys a m = m
  Elem-append_right (x ∷ xs) ys a m = inr (Elem-append_right xs ys a m)

  pub Elem-append : (xs ys : List A) (a : A) → Elem a (xs ++ ys) → Elem a xs ⊎ Elem a ys
  Elem-append [] ys a m = inr m
  Elem-append (x ∷ xs) ys a (inl e) = inl (inl e)
  Elem-append (x ∷ xs) ys a (inr m) = elim (Elem-append xs ys a m) [
    | inl k ↦ inl (inr k)
    | inr k ↦ inr k
  ]

  pub Elem-filter :
      (p : A → Bool) (xs : List A) (a : A) → Elem a (filter p xs) → Elem a xs × (p a ≡ true)
  Elem-filter p [] a m = absurd m
  Elem-filter p (x ∷ xs) a m = ground (arith, Elem-filter p xs a)

  pub Elem-filter_of :
      (p : A → Bool) (xs : List A) (a : A) → Elem a xs → p a ≡ true → Elem a (filter p xs)
  Elem-filter_of p [] a m h = absurd m
  Elem-filter_of p (x ∷ xs) a m h = ground (arith, Elem-filter_of p xs a)

  pub Distinct-filter : (p : A → Bool) (xs : List A) → Distinct xs → Distinct (filter p xs)
  Distinct-filter p [] d = tt
  Distinct-filter p (x ∷ xs) (h, d) = ground (arith, Distinct-filter p xs d, Elem-filter p xs x)

module _ {ℓ} {A : Type ℓ} where
  pub filter-append :
      (p : A → Bool) (xs ys : List A) → filter p (xs ++ ys) ≡ filter p xs ++ filter p ys
  filter-append p [] ys = refl
  filter-append p (x ∷ xs) ys = ground (arith, filter-append p xs ys)

  pub length-filter-le : (p : A → Bool) (xs : List A) → length (filter p xs) ≤ length xs
  length-filter-le p [] = omega arith
  length-filter-le p (x ∷ xs) = ground (arith, length-filter-le p xs)

module _ {ℓ κ} {A : Type ℓ} {B : Type κ} (f : A → B) where
  pub length-map : (xs : List A) → length (map f xs) ≡ length xs
  length-map [] = refl
  length-map (x ∷ xs) = ap suc (length-map xs)

module _ {A B : Type 0} (f : A → B) where
  pub Elem-map_of : (xs : List A) (a : A) → Elem a xs → Elem (f a) (map f xs)
  Elem-map_of [] a m = absurd m
  Elem-map_of (x ∷ xs) a (inl e) = inl (ap f e)
  Elem-map_of (x ∷ xs) a (inr m) = inr (Elem-map_of xs a m)

  pub Elem-map : (xs : List A) (b : B) → Elem b (map f xs) → (a : A) × Elem a xs × (b ≡ f a)
  Elem-map [] b m = absurd m
  Elem-map (x ∷ xs) b (inl e) = (x, inl refl, e)
  Elem-map (x ∷ xs) b (inr m) = let (a, k, e) = Elem-map xs b m in (a, inr k, e)

  pub map-take : (n : ℕ) (xs : List A) → map f (take n xs) ≡ take n (map f xs)
  map-take zero xs = refl
  map-take (suc n) [] = refl
  map-take (suc n) (x ∷ xs) = ap (◌∷◌ (f x)) (map-take n xs)

  -- Where a field is distinct it tells the elements apart.
  pub Distinct-map_inj :
      (xs : List A) (a b : A) → Distinct (map f xs) → Elem a xs → Elem b xs → f a ≡ f b → a ≡ b
  Distinct-map_inj [] a b d m n e = absurd m
  Distinct-map_inj (x ∷ xs) a b (h, d) (inl p) (inl q) e = p ∙ sym q
  Distinct-map_inj (x ∷ xs) a b (h, d) (inl p) (inr n) e =
      absurd (h (subst (λ y. Elem y (map f xs)) (sym e ∙ ap f p) (Elem-map_of xs b n)))
  Distinct-map_inj (x ∷ xs) a b (h, d) (inr m) (inl q) e =
      absurd (h (subst (λ y. Elem y (map f xs)) (e ∙ ap f q) (Elem-map_of xs a m)))
  Distinct-map_inj (x ∷ xs) a b (h, d) (inr m) (inr n) e = Distinct-map_inj xs a b d m n e

  Elem-map-filter :
      (p : A → Bool) (xs : List A) (b : B) → Elem b (map f (filter p xs)) → Elem b (map f xs)
  Elem-map-filter p [] b m = m
  Elem-map-filter p (x ∷ xs) b m = ground (arith, Elem-map-filter p xs b)

  pub Distinct-map-filter :
      (p : A → Bool) (xs : List A) → Distinct (map f xs) → Distinct (map f (filter p xs))
  Distinct-map-filter p [] d = d
  Distinct-map-filter p (x ∷ xs) (n, d) =
      ground (arith, Distinct-map-filter p xs d, Elem-map-filter p xs (f x))

module _ {A : Type 0} where
  pub Distinct-append :
      (xs ys : List A)
      → Distinct xs
      → Distinct ys
      → ((a : A) → Elem a xs → ¬ Elem a ys)
      → Distinct (xs ++ ys)
  Distinct-append [] ys d e n = e
  Distinct-append (x ∷ xs) ys (h, d) e n = (
    λ m. elim (Elem-append xs ys x m) [ inl k ↦ h k | inr k ↦ n x (inl refl) k ],
    Distinct-append xs ys d e (λ a m. n a (inr m)),
  )

module _ {ℓ} {A : Type ℓ} (p : A → Bool) where
  pub filter_of_All : (xs : List A) → All (λ x. p x ≡ true) xs → filter p xs ≡ xs
  filter_of_All [] h = refl
  filter_of_All (x ∷ xs) (q, h) = ground (arith, filter_of_All xs h)

  pub filter_of_none : (xs : List A) → All (λ x. p x ≡ false) xs → filter p xs ≡ []
  filter_of_none [] h = refl
  filter_of_none (x ∷ xs) (q, h) = ground (arith, filter_of_none xs h)

  pub All-filter : (xs : List A) → All (λ x. p x ≡ true) (filter p xs)
  All-filter [] = tt
  All-filter (x ∷ xs) = ground (arith, All-filter xs)

pub All-imp {ℓ κ μ} :
    {A : Type ℓ} (P : A → Type κ) (Q : A → Type μ) (xs : List A)
    → ((a : A) → P a → Q a)
    → All P xs
    → All Q xs
All-imp P Q [] f h = tt
All-imp P Q (x ∷ xs) f (p, h) = (f x p, All-imp P Q xs f h)

pub Elem-flat_map :
    {A B : Type 0} (f : A → List B) (xs : List A) (x : A) (y : B)
    → Elem x xs
    → Elem y (f x)
    → Elem y (flat_map f xs)
Elem-flat_map f [] x y i j = absurd i
Elem-flat_map f (z ∷ xs) x y (inl e) j = Elem-append_left (f z) (flat_map f xs) y (rw (sym e) j)
Elem-flat_map f (z ∷ xs) x y (inr i) j =
    Elem-append_right (f z) (flat_map f xs) y (Elem-flat_map f xs x y i j)
