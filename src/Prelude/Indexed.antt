-- ===== src/Prelude/Indexed.antt =====
-- Reading and writing an array at an index.
use Prim.Native.Nat.{ℕ, zero, suc, ◌<◌}
use mathlib.Core.Path.{◌≡◌, refl, ap, ap₂}
use mathlib.Core.Logic.{◌≢◌, ◌⊎◌, inl, inr}
use mathlib.Core.List.{List, [], ◌∷◌, ◌++◌, map}
use mathlib.Core.Option.{Option, none, some}
use native.Mathlib.Omega.{arith}
use nfm_dashboard.Prelude.Lists.{length}

module _ {ℓ} {A : Type ℓ} where
  unfoldable pub at : ℕ → List A → Option A
  at i [] = none
  at zero (x ∷ xs) = some x
  at (suc i) (x ∷ xs) = at i xs

  -- `xs[i] = a`, within the bounds
  unfoldable pub set_at : ℕ → A → List A → List A
  set_at i a [] = []
  set_at zero a (x ∷ xs) = a ∷ xs
  set_at (suc i) a (x ∷ xs) = x ∷ set_at i a xs

  pub length-set_at : (i : ℕ) (a : A) (xs : List A) → length (set_at i a xs) ≡ length xs
  unfolding set_at
  length-set_at i a [] = refl
  length-set_at zero a (x ∷ xs) = refl
  length-set_at (suc i) a (x ∷ xs) = ap suc (length-set_at i a xs)

  pub at-set_at_self : (i : ℕ) (a : A) (xs : List A) → i < length xs → at i (set_at i a xs) ≡ some a
  unfolding at set_at
  at-set_at_self i a [] h = absurd (omega arith)
  at-set_at_self zero a (x ∷ xs) h = refl
  at-set_at_self (suc i) a (x ∷ xs) h = at-set_at_self i a xs (omega arith)

  pub at-set_at_other : (i j : ℕ) (a : A) (xs : List A) → i ≢ j → at j (set_at i a xs) ≡ at j xs
  unfolding at set_at
  at-set_at_other i j a [] h = refl
  at-set_at_other zero zero a (x ∷ xs) h = absurd (h refl)
  at-set_at_other zero (suc j) a (x ∷ xs) h = refl
  at-set_at_other (suc i) zero a (x ∷ xs) h = refl
  at-set_at_other (suc i) (suc j) a (x ∷ xs) h = at-set_at_other i j a xs (λ e. h (ap suc e))

  pub at-lt : (i : ℕ) (a : A) (xs : List A) → at i xs ≡ some a → i < length xs
  unfolding at
  at-lt i a [] h = cc
  at-lt zero a (x ∷ xs) h = omega arith
  at-lt (suc i) a (x ∷ xs) h = omega (arith, at-lt i a xs h)

  pub at-append_left :
      (i : ℕ) (a b : A) (xs : List A) → at i xs ≡ some a → at i (xs ++ b ∷ []) ≡ some a
  unfolding at
  at-append_left i a b [] h = cc
  at-append_left zero a b (x ∷ xs) h = h
  at-append_left (suc i) a b (x ∷ xs) h = at-append_left i a b xs h

  pub at-append_self : (a : A) (xs : List A) → at (length xs) (xs ++ a ∷ []) ≡ some a
  unfolding at
  at-append_self a [] = refl
  at-append_self a (x ∷ xs) = at-append_self a xs

  pub at-append :
      (i : ℕ) (a b : A) (xs : List A) → at i (xs ++ b ∷ []) ≡ some a → (at i xs ≡ some a) ⊎ (b ≡ a)
  unfolding at
  at-append zero a b [] h = inr (cc)
  at-append (suc i) a b [] h = cc
  at-append zero a b (x ∷ xs) h = inl h
  at-append (suc i) a b (x ∷ xs) h = at-append i a b xs h

  -- Arrays of one length with the same elements are equal.
  pub at_ext :
      (xs ys : List A)
      → length xs ≡ length ys
      → ((i : ℕ) → i < length xs → at i xs ≡ at i ys)
      → xs ≡ ys
  unfolding at
  at_ext [] [] e h = refl
  at_ext [] (y ∷ ys) e h = absurd (omega arith)
  at_ext (x ∷ xs) [] e h = absurd (omega arith)
  at_ext (x ∷ xs) (y ∷ ys) e h =
      let same : some x ≡ some y = h zero (omega arith) in
      ap₂ ◌∷◌ (cc) (at_ext xs ys (omega arith) (λ i m. h (suc i) (omega arith)))

module _ {ℓ κ} {A : Type ℓ} {B : Type κ} (f : A → B) where
  pub at-map : (i : ℕ) (xs : List A) (a : A) → at i xs ≡ some a → at i (map f xs) ≡ some (f a)
  unfolding at
  at-map i [] a h = cc
  at-map zero (x ∷ xs) a h = cc
  at-map (suc i) (x ∷ xs) a h = at-map i xs a h
