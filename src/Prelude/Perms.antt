-- ===== src/Prelude/Perms.antt =====
-- Rearrangements of appended lists.
use mathlib.Core.Path.{◌≡◌, refl, sym, ◌∙◌}
use mathlib.Core.List.{List, ◌++◌, Perm, Permᴰ, perm_append_comm, append_assoc}
use mathlib.Core.Logic.{∥∥₁_elim}
use nfm_dashboard.Prelude.Lists.{length}
use native.Mathlib.Omega.{arith}
use mathlib.Core.List.Perm

module _ {ℓ} {A : Type ℓ} where
  -- What is split off in two steps.
  pub Perm-append_assoc :
      (xs ys zs ws all : List A)
      → Perm (xs ++ ws) all
      → Perm (ys ++ zs) ws
      → Perm ((xs ++ ys) ++ zs) all
  Perm-append_assoc xs ys zs ws all p q =
      rw (append_assoc xs ys zs) (Perm.trans (Perm.append_left xs q) p)

  swap_middle : (ys zs ws : List A) → Perm (ys ++ (zs ++ ws)) (zs ++ (ys ++ ws))
  swap_middle ys zs ws =
      rw (sym (append_assoc ys zs ws), sym (append_assoc zs ys ws))
        (Perm.append_right ws (perm_append_comm ys zs))

  -- Two lists that are each split.
  pub Perm-append_splits :
      (xs ys zs ws left right : List A)
      → Perm (xs ++ zs) left
      → Perm (ys ++ ws) right
      → Perm ((xs ++ ys) ++ (zs ++ ws)) (left ++ right)
  Perm-append_splits xs ys zs ws left right p q =
      let shuffled : Perm ((xs ++ ys) ++ (zs ++ ws)) ((xs ++ zs) ++ (ys ++ ws)) =
        rw (append_assoc xs ys (zs ++ ws), append_assoc xs zs (ys ++ ws))
          (Perm.append_left xs (swap_middle ys zs ws)) in
      Perm.trans shuffled (Perm.append p q)

  length-Permᴰ : {xs ys : List A} → Permᴰ xs ys → length xs ≡ length ys
  length-Permᴰ Permᴰ.nil = refl
  length-Permᴰ (Permᴰ.cons e p) = omega (arith, length-Permᴰ p)
  length-Permᴰ (Permᴰ.swap e f) = omega arith
  length-Permᴰ (Permᴰ.trans p q) = length-Permᴰ p ∙ length-Permᴰ q

  pub length-Perm : (xs ys : List A) → Perm xs ys → length xs ≡ length ys
  length-Perm xs ys p = ∥∥₁_elim {P = length xs ≡ length ys} p (hlevel) length-Permᴰ
