-- ===== src/Prelude/Group.antt =====
-- Grouping into a `Map` of lists: `for (const e of es) (m.get(key(e)) ?? m.set(key(e), [])).push(e)`.
use mathlib.Core.Path.{◌≡◌, refl, ap, sym, subst, ◌∙◌}
use mathlib.Core.Logic.{ite, if_pos, inl, inr}
use mathlib.Core.Bool.{Bool, true, false}
use mathlib.Core.Option.{Option, none, some}
use mathlib.Core.List.{List, [], ◌∷◌, ◌++◌, append-nil, append_assoc}
use native.Mathlib.Omega.{arith}
use nfm_dashboard.Prelude.Tests.{or_else, Option-cases}
use nfm_dashboard.Prelude.Lists.{Elem, Distinct, filter, Elem-filter_of}
use nfm_dashboard.Prelude.Map.{
  get, keys, collect, fold_at, get-collect, collect-Distinct, get-Elem, Elem-get,
}

module _ {E K : Type 0} (dec : Discrete K) (key : E → K) where
  unfoldable pub push : Option (List E) → E → List E
  push group e = or_else group [] ++ e ∷ []

  abbrev pub group_by : List E → List (K × List E)
  group_by es = collect dec key push es []

  -- Whether an element has the key.
  abbrev pub of_key : K → E → Bool
  of_key k e = ite (dec (key e) k) true false

  fold_at-push :
      (k : K) (es : List E) (o : Option (List E))
      → or_else (fold_at dec key push k es o) [] ≡ or_else o [] ++ filter (of_key k) es
  unfolding fold_at push
  fold_at-push k [] o = sym (append-nil (or_else o []))
  fold_at-push k (e ∷ es) o = elim (dec (key e) k) [
    | yes p ↦ ground (
      arith,
      fold_at-push k es (some (or_else o [] ++ e ∷ [])),
      append_assoc (or_else o []) (e ∷ []) (filter (of_key k) es),
    )
    | no p ↦ ground (arith, fold_at-push k es o)
  ]

  pub get-group_by :
      (k : K) (es : List E) → or_else (get dec k (group_by es)) [] ≡ filter (of_key k) es
  unfolding get
  get-group_by k es =
      ap (λ o. or_else o []) (get-collect dec key push k es []) ∙ fold_at-push k es none

  pub group_by-Distinct : (es : List E) → Distinct (keys (group_by es))
  group_by-Distinct es = collect-Distinct dec key push es [] tt

  -- A group holds the elements with its key, in their order.
  pub group_by-Elem :
      (es : List E) (k : K) (g : List E) → Elem (k, g) (group_by es) → g ≡ filter (of_key k) es
  group_by-Elem es k g m =
      let found = Elem-get dec k g (group_by es) (group_by-Distinct es) m in
      ap (λ o. or_else o []) (sym found) ∙ get-group_by k es

  of_key_self : (e : E) → of_key (key e) e ≡ true
  of_key_self e = if_pos (dec (key e) (key e)) refl true false

  pub key_of_key : (k : K) (e : E) → of_key k e ≡ true → key e ≡ k
  key_of_key k e h = ground arith

  -- Every element has its group.
  pub group_by_complete :
      (es : List E) (e : E) → Elem e es → Elem (key e, filter (of_key (key e)) es) (group_by es)
  group_by_complete es e m =
      let all = get-group_by (key e) es in
      let inside = Elem-filter_of (of_key (key e)) es e m (of_key_self e) in
      elim (Option-cases (get dec (key e) (group_by es))) [
        | inl q ↦ absurd (subst (Elem e) (sym all ∙ ap (λ o. or_else o []) q) inside)
        | inr (g, q) ↦
            get-Elem dec (key e) _ (group_by es)
              (q ∙ ap some (ap (λ o. or_else o []) (sym q) ∙ all))
      ]
