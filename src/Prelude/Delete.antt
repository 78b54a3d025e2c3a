-- ===== src/Prelude/Delete.antt =====
-- Deletion from a JavaScript `Map`.
use mathlib.Core.Path.{◌≡◌}
use mathlib.Core.Logic.{ite, if_pos, if_neg}
use mathlib.Core.List.{List, [], ◌∷◌}
use mathlib.Core.Option.{none}
use native.Mathlib.Omega.{arith}
use nfm_dashboard.Prelude.Lists.{Elem, Distinct}
use nfm_dashboard.Prelude.Map.{keys, get}

module _ {K V : Type 0} (dec : Discrete K) where
  -- `m.delete(k)`
  unfoldable pub delete : K → List (K × V) → List (K × V)
  delete k [] = []
  delete k (e ∷ m) = let rest = delete k m in ite (dec e.0 k) rest (e ∷ rest)

  pub get-delete :
      (k j : K) (m : List (K × V)) → get dec j (delete k m) ≡ ite (dec k j) none (get dec j m)
  unfolding get delete
  get-delete k j [] = ground arith
  get-delete k j (e ∷ m) = ground (arith, get-delete k j m)

  Elem-keys-delete : (k j : K) (m : List (K × V)) → Elem j (keys (delete k m)) → Elem j (keys m)
  unfolding delete
  Elem-keys-delete k j [] h = h
  Elem-keys-delete k j (e ∷ m) h = ground (arith, Elem-keys-delete k j m)

  pub delete-Distinct :
      (k : K) (m : List (K × V)) → Distinct (keys m) → Distinct (keys (delete k m))
  unfolding delete
  delete-Distinct k [] d = d
  delete-Distinct k (e ∷ m) (h, d) = elim (dec e.0 k) [
    | yes p ↦ rw (if_pos, p) (delete-Distinct k m d)
    | no p ↦ rw (if_neg, p) (λ i. h (Elem-keys-delete k e.0 m i), delete-Distinct k m d)
  ]
