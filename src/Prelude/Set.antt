-- ===== src/Prelude/Set.antt =====
-- A JavaScript `Set`: its elements in insertion order, none of them twice.
use mathlib.Core.Path.{◌≡◌, sym}
use mathlib.Core.Logic.{◌⊎◌, inl, inr, ite}
use mathlib.Core.Bool.{Bool, true, false}
use mathlib.Core.List.{List, [], ◌∷◌, ◌++◌}
use native.Mathlib.Omega.{arith}
use nfm_dashboard.Prelude.Tests.{if◌then◌else◌, Bool-cases}
use nfm_dashboard.Prelude.Lists.{Elem, Distinct, Elem-append, Elem-append_left, Elem-append_right}

module _ {A : Type 0} (dec : Discrete A) where
  -- `s.has(a)`, and `xs.includes(a)`
  unfoldable pub contains : A → List A → Bool
  contains a [] = false
  contains a (x ∷ xs) = ite (dec x a) true (contains a xs)

  -- `s.add(a)`
  unfoldable pub add : List A → A → List A
  unfolding contains
  add s a = if contains a s then s else s ++ a ∷ []

  unfoldable pub add_all : List A → List A → List A
  unfolding add
  add_all s [] = s
  add_all s (x ∷ xs) = add_all (add s x) xs

  -- `new Set(xs)`
  unfoldable pub to_set : List A → List A
  unfolding add_all
  to_set xs = add_all [] xs

  pub contains→Elem : (a : A) (xs : List A) → contains a xs ≡ true → Elem a xs
  unfolding contains
  contains→Elem a [] h = ground arith
  contains→Elem a (x ∷ xs) h = ground (arith, contains→Elem a xs)

  pub Elem→contains : (a : A) (xs : List A) → Elem a xs → contains a xs ≡ true
  unfolding contains
  Elem→contains a [] h = absurd h
  Elem→contains a (x ∷ xs) h = ground (arith, Elem→contains a xs)

  pub not-Elem_of_contains : (a : A) (xs : List A) → contains a xs ≡ false → ¬ Elem a xs
  not-Elem_of_contains a xs h m = ground (arith, Elem→contains a xs m)

  pub contains_of_not-Elem : (a : A) (xs : List A) → ¬ Elem a xs → contains a xs ≡ false
  contains_of_not-Elem a xs n = elim (Bool-cases (contains a xs)) [
    | inl e ↦ absurd (n (contains→Elem a xs e))
    | inr e ↦ e
  ]

  Distinct-concat : (s : List A) (a : A) → Distinct s → ¬ Elem a s → Distinct (s ++ a ∷ [])
  Distinct-concat [] a d n = (λ m. m, tt)
  Distinct-concat (x ∷ s) a (h, d) n = (
    λ m. elim (Elem-append s (a ∷ []) x m) [
      | inl k ↦ h k
      | inr (inl e) ↦ n (inl (sym e))
      | inr (inr k) ↦ k
    ],
    Distinct-concat s a d (λ m. n (inr m)),
  )

  pub add-Distinct : (s : List A) (a : A) → Distinct s → Distinct (add s a)
  unfolding add
  add-Distinct s a d = elim (Bool-cases (contains a s)) [
    | inl e ↦ rw e d
    | inr e ↦ rw e (Distinct-concat s a d (not-Elem_of_contains a s e))
  ]

  pub Elem-add : (s : List A) (a x : A) → Elem x (add s a) → (x ≡ a) ⊎ Elem x s
  unfolding add
  Elem-add s a x m = elim (Bool-cases (contains a s)) [
    | inl e ↦ inr (rw (e, add) at m)
    | inr e ↦ elim (Elem-append s (a ∷ []) x (rw (e, add) at m)) [
      | inl k ↦ inr k
      | inr (inl p) ↦ inl p
      | inr (inr k) ↦ absurd k
    ]
  ]

  pub Elem-add_of : (s : List A) (a x : A) → (x ≡ a) ⊎ Elem x s → Elem x (add s a)
  unfolding add
  Elem-add_of s a x m = elim (Bool-cases (contains a s)) [
    | inl e ↦ rw e (elim m [ inl p ↦ rw p (contains→Elem a s e) | inr k ↦ k ])
    | inr e ↦ rw e (elim m [
      | inl p ↦ Elem-append_right s (a ∷ []) x (inl p)
      | inr k ↦ Elem-append_left s (a ∷ []) x k
    ])
  ]

  pub add_all-Distinct : (s xs : List A) → Distinct s → Distinct (add_all s xs)
  unfolding add_all
  add_all-Distinct s [] d = d
  add_all-Distinct s (x ∷ xs) d = add_all-Distinct (add s x) xs (add-Distinct s x d)

  pub Elem-add_all : (s xs : List A) (a : A) → Elem a (add_all s xs) → Elem a s ⊎ Elem a xs
  unfolding add_all
  Elem-add_all s [] a m = inl m
  Elem-add_all s (x ∷ xs) a m = elim (Elem-add_all (add s x) xs a m) [
    | inl k ↦ elim (Elem-add s x a k) [ inl p ↦ inr (inl p) | inr j ↦ inl j ]
    | inr k ↦ inr (inr k)
  ]

  pub Elem-add_all_of : (s xs : List A) (a : A) → Elem a s ⊎ Elem a xs → Elem a (add_all s xs)
  unfolding add_all
  Elem-add_all_of s [] a m = elim m [ inl k ↦ k | inr k ↦ absurd k ]
  Elem-add_all_of s (x ∷ xs) a m = Elem-add_all_of (add s x) xs a (elim m [
    | inl k ↦ inl (Elem-add_of s x a (inr k))
    | inr (inl p) ↦ inl (Elem-add_of s x a (inl p))
    | inr (inr k) ↦ inr k
  ])
