-- ===== src/Dashboard/RecentPaths.antt =====
-- The recent lookups of the paths page: app/src/lib/recent-paths.ts. A stored text is given by the
-- value that JSON.parse makes of it.
use mathlib.Core.Path.{subst}
use nfm_dashboard.Prelude.{
  ℕ, suc, ◌≤◌, Option, none, some, List, [], ◌∷◌, map, take, filter, length, Bool, true, false, not,
  ite, ◌≡◌, refl, Distinct, Distinct-take, Elem, Elem-map, Elem-filter, Distinct-map-filter,
  map-take, length-take-le, inl, inr, arith, sym, All, All-of_Elem, Elem-take, ◌⊎◌,
}
use nfm_dashboard.Prelude.Text.{Str, str_discrete}

pub record RecentPath : Type 0 where
  pub edge_id : Str
  pub label : Str
  pub ts : ℕ

abbrev pub max_recent_paths : ℕ
max_recent_paths = 5

abbrev pub has_edge : Str → RecentPath → Bool
has_edge id r = ite (str_discrete r.edge_id id) true false

unfoldable pub push_recent : List RecentPath → RecentPath → ℕ → List RecentPath
push_recent list entry max = take max (entry ∷ filter (λ r. not (has_edge entry.edge_id r)) list)

-- What a stored text holds: nothing that is an array (or no JSON at all), or the elements, where none
-- is an element that is no recent path.
pub data Stored : Type 0 where
  no_array : Stored
  array : List (Option RecentPath) → Stored

abbrev pub valid : List (Option RecentPath) → List RecentPath
valid [] = []
valid (none ∷ xs) = valid xs
valid (some r ∷ xs) = r ∷ valid xs

unfoldable pub parse_recent : Stored → List RecentPath
parse_recent no_array = []
parse_recent (array xs) = take max_recent_paths (valid xs)

-- What the page relies on in its list of recent paths.
pub record IsRecent (max : ℕ) (list : List RecentPath) : Type 0 where
  pub capped : length list ≤ max
  pub distinct : Distinct (map (λ r. r.edge_id) list)

entry_is_new :
    (list : List RecentPath) (id : Str)
    → ¬ Elem id (map (λ r. r.edge_id) (filter (λ r. not (has_edge id r)) list))
entry_is_new list id m =
    let (r, i, e) = Elem-map (λ (r : RecentPath). r.edge_id) _ id m in
    let (j, kept) = Elem-filter (λ r. not (has_edge id r)) list r i in ground arith

-- Where the cap is not 0, pushing keeps the list within its cap and without repeated edges; the entry
-- is in it, and everything else in it was there before.
pub push_recent-IsRecent :
    (list : List RecentPath) (entry : RecentPath) (max : ℕ)
    → Distinct (map (λ r. r.edge_id) list)
    → IsRecent (suc max) (push_recent list entry (suc max))
      × Elem entry (push_recent list entry (suc max))
      × All (λ r. (r ≡ entry) ⊎ Elem r list) (push_recent list entry (suc max))
unfolding push_recent
push_recent-IsRecent list entry max d =
    let others = filter (λ r. not (has_edge entry.edge_id r)) list in
    let id = λ (r : RecentPath). r.edge_id in
    let all =
      Distinct-take (suc max) (map id (entry ∷ others))
        (entry_is_new list entry.edge_id, Distinct-map-filter id _ list d) in
    (
      record {
        capped = length-take-le (suc max) (entry ∷ others);
        distinct = subst Distinct (sym (map-take id (suc max) (entry ∷ others))) all;
      },
      inl refl,
      All-of_Elem _ (take (suc max) (entry ∷ others)) (λ r m.
          elim (Elem-take (suc max) (entry ∷ others) r m) [
            | inl e ↦ inl e
            | inr i ↦ inr (Elem-filter _ list r i).0
          ]),
    )
