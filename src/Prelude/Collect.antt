-- ===== src/Prelude/Collect.antt =====
-- Properties that the loop over a map keeps.
use mathlib.Core.Path.{sym, subst}
use mathlib.Core.Logic.{inl, inr}
use mathlib.Core.List.{List, [], ◌∷◌}
use mathlib.Core.Option.{Option, none, some}
use nfm_dashboard.Prelude.Tests.{Option-cases}
use nfm_dashboard.Prelude.Lists.{All, All-Elem}
use nfm_dashboard.Prelude.Map.{get, collect, get-Elem, All-put}

module _ {K V E : Type 0} (dec : Discrete K) (key : E → K) (step : Option V → E → V) where
  -- A property of the entries that each round keeps.
  pub All-collect :
      (P : K × V → Type 0) (es : List E) (m : List (K × V))
      → All (λ e. P (key e, step none e)) es
      → ((v : V) (e : E) → P (key e, v) → P (key e, step (some v) e))
      → All P m
      → All P (collect dec key step es m)
  unfolding collect
  All-collect P [] m made kept h = h
  All-collect P (e ∷ es) m (p, made) kept h = All-collect P es _ made kept (
      All-put dec P (key e) (step (get dec (key e) m) e) m
        (elim (Option-cases (get dec (key e) m)) [
          | inl q ↦ subst (λ o. P (key e, step o e)) (sym q) p
          | inr (v, q) ↦
              subst (λ o. P (key e, step o e)) (sym q)
                (kept v e (All-Elem P m (key e, v) h (get-Elem dec (key e) v m q)))
        ])
        h)
