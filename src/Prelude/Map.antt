-- ===== src/Prelude/Map.antt =====
-- A JavaScript `Map` (and a `Set`, by its keys): the entries in insertion order, where a write to
-- a key that is present keeps its place.
use mathlib.Core.Path.{◌≡◌, refl, ap, ap₂, sym, subst, ◌∙◌}
use mathlib.Core.Logic.{◌≢◌, ◌⊎◌, inl, inr, ite, if_pos, if_neg}
use mathlib.Core.List.{List, [], ◌∷◌, ◌++◌, map, append-nil, append_assoc}
use mathlib.Core.Option.{Option, none, some}
use native.Mathlib.Omega.{arith}
use nfm_dashboard.Prelude.Lists.{All, Elem, Distinct}

module _ {K V : Type 0} where
  -- `[...m.keys()]` and `[...m.values()]`
  abbrev pub keys : List (K × V) → List K
  keys [] = []
  keys (e ∷ m) = e.0 ∷ keys m

  abbrev pub values : List (K × V) → List V
  values [] = []
  values (e ∷ m) = e.1 ∷ values m

module _ {K V : Type 0} (dec : Discrete K) where
  -- `m.get(k)`
  unfoldable pub get : K → List (K × V) → Option V
  get k [] = none
  get k (e ∷ m) = ite (dec e.0 k) (some e.1) (get k m)

  -- `m.set(k, v)`
  unfoldable pub put : K → V → List (K × V) → List (K × V)
  put k v [] = (k, v) ∷ []
  put k v (e ∷ m) = ite (dec e.0 k) ((e.0, v) ∷ m) (e ∷ put k v m)

  pub get-put :
      (k j : K) (v : V) (m : List (K × V)) → get j (put k v m) ≡ ite (dec k j) (some v) (get j m)
  unfolding get put
  get-put k j v [] = refl
  get-put k j v (e ∷ m) = ground (arith, get-put k j v m)

  pub get-put_self : (k : K) (v : V) (m : List (K × V)) → get k (put k v m) ≡ some v
  get-put_self k v m = get-put k k v m ∙ if_pos (dec k k) refl _ _

  pub Elem-keys-put :
      (k j : K) (v : V) (m : List (K × V)) → Elem j (keys (put k v m)) → (j ≡ k) ⊎ Elem j (keys m)
  unfolding put
  Elem-keys-put k j v [] h = h
  Elem-keys-put k j v (e ∷ m) h = ground (arith, Elem-keys-put k j v m)

  pub put-Distinct :
      (k : K) (v : V) (m : List (K × V)) → Distinct (keys m) → Distinct (keys (put k v m))
  unfolding put
  put-Distinct k v [] d = (λ m. m, tt)
  put-Distinct k v (e ∷ m) (h, d) = elim (dec e.0 k) [
    | yes p ↦ rw (if_pos, p) (h, d)
    | no p ↦
        rw (if_neg, p)
          (
            λ i. elim (Elem-keys-put k e.0 v m i) [ inl q ↦ p q | inr q ↦ h q ],
            put-Distinct k v m d,
          )
  ]

  pub get-Elem : (k : K) (v : V) (m : List (K × V)) → get k m ≡ some v → Elem (k, v) m
  unfolding get
  get-Elem k v [] h = cc
  get-Elem k v (e ∷ m) h = ground (arith, get-Elem k v m)

  pub Elem-keys : (k : K) (v : V) (m : List (K × V)) → Elem (k, v) m → Elem k (keys m)
  Elem-keys k v [] h = h
  Elem-keys k v (e ∷ m) (inl p) = inl (ap (λ (x : K × V). x.0) p)
  Elem-keys k v (e ∷ m) (inr h) = inr (Elem-keys k v m h)

  pub Elem-get :
      (k : K) (v : V) (m : List (K × V)) → Distinct (keys m) → Elem (k, v) m → get k m ≡ some v
  unfolding get
  Elem-get k v [] d h = absurd h
  Elem-get k v (e ∷ m) d (inl p) = ground arith
  Elem-get k v (e ∷ m) (n, d) (inr h) = elim (dec e.0 k) [
    | yes p ↦ absurd (n (rw p (Elem-keys k v m h)))
    | no p ↦ rw (if_neg, p) (Elem-get k v m d h)
  ]

  -- One round of `for (const e of es) m.set(key(e), step(m.get(key(e)), e))`.
  module _ {E : Type 0} (key : E → K) (step : Option V → E → V) where
    abbrev pub collect_one : List (K × V) → E → List (K × V)
    collect_one m e = put (key e) (step (get (key e) m) e) m

    unfoldable pub collect : List E → List (K × V) → List (K × V)
    collect [] m = m
    collect (e ∷ es) m = collect es (collect_one m e)

    -- What one key has seen: the fold over the elements with that key alone.
    unfoldable pub fold_at : K → List E → Option V → Option V
    fold_at k [] o = o
    fold_at k (e ∷ es) o = fold_at k es (ite (dec (key e) k) (some (step o e)) o)

    pub get-collect :
        (k : K) (es : List E) (m : List (K × V)) → get k (collect es m) ≡ fold_at k es (get k m)
    unfolding collect fold_at
    get-collect k [] m = refl
    get-collect k (e ∷ es) m =
        get-collect k es (collect_one m e)
        ∙ ap (fold_at k es) (ground (arith, get-put (key e) k (step (get (key e) m) e) m))

    pub collect-Distinct :
        (es : List E) (m : List (K × V)) → Distinct (keys m) → Distinct (keys (collect es m))
    unfolding collect
    collect-Distinct [] m d = d
    collect-Distinct (e ∷ es) m d =
        collect-Distinct es (collect_one m e) (put-Distinct (key e) (step (get (key e) m) e) m d)

  -- Writing what is there already changes nothing.
  pub put_same : (k : K) (v : V) (m : List (K × V)) → get k m ≡ some v → put k v m ≡ m
  unfolding get put
  put_same k v [] h = cc
  put_same k v (e ∷ m) h = ground (arith, put_same k v m)

  pub put_absent :
      (k : K) (v : V) (m : List (K × V)) → get k m ≡ none → put k v m ≡ m ++ (k, v) ∷ []
  unfolding get put
  put_absent k v [] h = refl
  put_absent k v (e ∷ m) h = ground (arith, put_absent k v m)

  pub get-append_absent :
      (j k : K) (v : V) (m : List (K × V))
      → get j m ≡ none
      → k ≢ j
      → get j (m ++ (k, v) ∷ []) ≡ none
  unfolding get
  get-append_absent j k v [] h ne = if_neg (dec k j) ne _ _
  get-append_absent j k v (e ∷ m) h ne = ground (arith, get-append_absent j k v m)

  pub All-put :
      (P : K × V → Type 0) (k : K) (v : V) (m : List (K × V))
      → P (k, v)
      → All P m
      → All P (put k v m)
  unfolding put
  All-put P k v [] p h = (p, tt)
  All-put P k v (e ∷ m) p (q, h) = elim (dec e.0 k) [
    | yes same ↦ rw (if_pos, same) (subst (λ j. P (j, v)) (sym same) p, h)
    | no other ↦ rw (if_neg, other) (q, All-put P k v m p h)
  ]

  -- Where no key comes twice and none is there yet, the loop appends an entry for each element.
  module _ {E : Type 0} (key : E → K) (step : Option V → E → V) where
    abbrev pub IsFresh : List (K × V) → List E → Type 0
    IsFresh m = All (λ e. get (key e) m ≡ none)

    IsFresh-append :
        (m : List (K × V)) (k : K) (v : V) (es : List E)
        → (¬ Elem k (map key es))
        → IsFresh m es
        → IsFresh (m ++ (k, v) ∷ []) es
    IsFresh-append m k v [] n h = tt
    IsFresh-append m k v (e ∷ es) n (p, h) = (
      get-append_absent (key e) k v m p (λ q. n (inl q)),
      IsFresh-append m k v es (λ i. n (inr i)) h,
    )

    pub collect_of_IsFresh :
        (es : List E) (m : List (K × V))
        → Distinct (map key es)
        → IsFresh m es
        → collect key step es m ≡ m ++ map (λ e. (key e, step none e)) es
    unfolding collect
    collect_of_IsFresh [] m d f = sym (append-nil m)
    collect_of_IsFresh (e ∷ es) m (n, d) (p, f) =
        let v = step none e in
        let m' = m ++ (key e, v) ∷ [] in
        rw (p, put_absent (key e) v m p)
          (collect_of_IsFresh es m' d (IsFresh-append m (key e) v es n f)
            ∙ append_assoc m ((key e, v) ∷ []) _)

  pub Elem-keys-put_of :
      (k j : K) (v : V) (m : List (K × V)) → (j ≡ k) ⊎ Elem j (keys m) → Elem j (keys (put k v m))
  unfolding put
  Elem-keys-put_of k j v [] h = h
  Elem-keys-put_of k j v (e ∷ m) h = ground (arith, Elem-keys-put_of k j v m)

  module _ {E : Type 0} (key : E → K) (step : Option V → E → V) where
    -- After the loop the keys are those that were there and those of the elements.
    pub Elem-keys-collect :
        (es : List E) (m : List (K × V)) (k : K)
        → Elem k (keys m) ⊎ Elem k (map key es)
        → Elem k (keys (collect key step es m))
    unfolding collect
    Elem-keys-collect [] m k h = elim h [ inl i ↦ i | inr i ↦ absurd i ]
    Elem-keys-collect (e ∷ es) m k h = Elem-keys-collect es _ k (elim h [
      | inl i ↦ inl (Elem-keys-put_of (key e) k _ m (inr i))
      | inr (inl p) ↦ inl (Elem-keys-put_of (key e) k _ m (inl p))
      | inr (inr i) ↦ inr i
    ])

module _ {K V : Type 0} where
  pub Elem-values : (m : List (K × V)) (v : V) → Elem v (values m) → (k : K) × Elem (k, v) m
  Elem-values [] v h = absurd h
  Elem-values (e ∷ m) v (inl p) = (e.0, inl (ap (λ (x : V). (e.0, x)) p))
  Elem-values (e ∷ m) v (inr h) = let (k, i) = Elem-values m v h in (k, inr i)

  pub Elem-values_of : (m : List (K × V)) (k : K) (v : V) → Elem (k, v) m → Elem v (values m)
  Elem-values_of [] k v h = h
  Elem-values_of (e ∷ m) k v (inl p) = inl (ap (λ (x : K × V). x.1) p)
  Elem-values_of (e ∷ m) k v (inr h) = inr (Elem-values_of m k v h)

  pub values-map :
      {E : Type 0} (f : E → K) (g : E → V) (es : List E)
      → values (map (λ e. (f e, g e)) es) ≡ map g es
  values-map f g [] = refl
  values-map f g (e ∷ es) = ap (◌∷◌ (g e)) (values-map f g es)

  -- Where each value has its key, the keys are read from the values.
  pub map-values :
      (f : V → K) (m : List (K × V)) → All (λ x. f x.1 ≡ x.0) m → map f (values m) ≡ keys m
  map-values f [] h = refl
  map-values f (x ∷ m) (p, h) = ap₂ ◌∷◌ p (map-values f m h)
