-- ===== src/Base/Dict.antt =====
-- A JavaScript `Map`: entries in insertion order, a key at most once. `put` writes in place or
-- appends. `Y.Map` and plain objects are read through the same type.
use mathlib.Core.Path.{◌≡◌, refl, sym, ap, ap₂, ◌∙◌}
use mathlib.Core.Bool.{Bool, false, ◌||◌}
use mathlib.Core.Logic.{◌⊎◌, inl, inr, ◌≢◌}
use mathlib.Core.Option.{Option, none, some}
use mathlib.Core.List.{List, [], ◌∷◌, map}
use native.Mathlib.Omega.{arith}
use anvilkit_plugin_collab_y.Base.Bools.{if◌then◌else◌, is_some}
use anvilkit_plugin_collab_y.Base.IdSet.{mem, Distinct}
use anvilkit_plugin_collab_y.Base.Keys.{Keyed, ◌==◌, beq-cases}
use anvilkit_plugin_collab_y.Base.Members.{In}

abbrev pub Dict {ℓ κ} : Type ℓ → Type κ → Type (ℓ ⊔ κ)
Dict K V = List (K × V)

module _ {ℓ κ} {K : Type ℓ} {V : Type κ} where
  abbrev pub keys : Dict K V → List K
  keys = map (λ e. e.0)

  abbrev pub values : Dict K V → List V
  values = map (λ e. e.1)

module _ {ℓ κ} {K : Type ℓ} {V : Type κ} ⦃e : Keyed K⦄ where
  unfoldable pub get : K → Dict K V → Option V
  get k [] = none
  get k ((j, v) ∷ m) = if j == k then some v else get k m

  unfoldable pub put : K → V → Dict K V → Dict K V
  put k v [] = (k, v) ∷ []
  put k v ((j, w) ∷ m) = if j == k then (j, v) ∷ m else (j, w) ∷ put k v m

  unfoldable pub del : K → Dict K V → Dict K V
  del k [] = []
  del k ((j, w) ∷ m) = if j == k then del k m else (j, w) ∷ del k m

  abbrev pub has : K → Dict K V → Bool
  has k m = is_some (get k m)

  pub get-put :
      (j k : K) (v : V) (m : Dict K V) → get j (put k v m) ≡ (if k == j then some v else get j m)
  unfolding get put
  get-put j k v [] = refl
  get-put j k v ((i, w) ∷ m) =
      ground (arith, e.same_key_iff k j, e.same_key_iff i k, e.same_key_iff i j, get-put j k v m)

  pub get-del : (j k : K) (m : Dict K V) → get j (del k m) ≡ (if k == j then none else get j m)
  unfolding get del
  get-del j k [] = ground arith
  get-del j k ((i, w) ∷ m) =
      ground (arith, e.same_key_iff k j, e.same_key_iff i k, e.same_key_iff i j, get-del j k m)

  -- Entries set one after another, as a loop does.
  unfoldable pub put_all : List (K × V) → Dict K V → Dict K V
  put_all [] m = m
  put_all ((k, v) ∷ es) m = put_all es (put k v m)

  unfoldable pub del_all : List K → Dict K V → Dict K V
  del_all [] m = m
  del_all (k ∷ ks) m = del_all ks (del k m)

  -- The value that a loop of `set` leaves under a key.
  unfoldable pub last_of : K → List (K × V) → Option V
  last_of k [] = none
  last_of k ((j, v) ∷ es) = elim (last_of k es) [
    | some w ↦ some w
    | none ↦ if j == k then some v else none
  ]

  pub get-put_all :
      (k : K) (es : List (K × V)) (m : Dict K V)
      → get k (put_all es m) ≡ elim (last_of k es) [ some v ↦ some v | none ↦ get k m ]
  unfolding put_all last_of
  get-put_all k [] m = refl
  get-put_all k ((j, v) ∷ es) m =
      ground (arith, get-put_all k es (put j v m), get-put k j v m, e.same_key_iff j k)

  pub get-del_all :
      (k : K) (ks : List K) (m : Dict K V)
      → get k (del_all ks m) ≡ (if mem k ks then none else get k m)
  unfolding del_all mem
  get-del_all k [] m = refl
  get-del_all k (j ∷ ks) m =
      ground (arith, get-del_all k ks (del j m), get-del k j m, e.same_key_iff j k)

  mem-keys-put :
      (k j : K) (v : V) (m : Dict K V) → mem k (keys (put j v m)) ≡ (j == k || mem k (keys m))
  unfolding put mem
  mem-keys-put k j v [] = refl
  mem-keys-put k j v ((i, w) ∷ m) =
      ground
        (arith, mem-keys-put k j v m, e.same_key_iff i j, e.same_key_iff j k, e.same_key_iff i k)

  -- A key stands at most once in a `Map`.
  pub put-Distinct :
      (k : K) (v : V) (m : Dict K V) → Distinct (keys m) → Distinct (keys (put k v m))
  unfolding put mem
  put-Distinct k v [] d = (refl, tt)
  put-Distinct k v ((j, w) ∷ m) d = elim (beq-cases j k) [
    | inl (t, q) ↦ rw t d
    | inr (f, q) ↦
        rw f (ground (arith, mem-keys-put j k v m, e.same_key_iff k j), put-Distinct k v m d.1)
  ]

  pub put_all-Distinct :
      (es : List (K × V)) (m : Dict K V) → Distinct (keys m) → Distinct (keys (put_all es m))
  unfolding put_all
  put_all-Distinct [] m d = d
  put_all-Distinct ((k, v) ∷ es) m d = put_all-Distinct es (put k v m) (put-Distinct k v m d)

  pub mem-keys : (k : K) (m : Dict K V) → mem k (keys m) ≡ has k m
  unfolding mem get
  mem-keys k [] = refl
  mem-keys k ((j, w) ∷ m) = ground (arith, mem-keys k m)

  pub del_absent : (k : K) (m : Dict K V) → get k m ≡ none → del k m ≡ m
  unfolding del get
  del_absent k [] h = refl
  del_absent k ((j, w) ∷ m) h = ground (arith, del_absent k m)

  mem-del : (j k : K) (m : Dict K V) → mem j (keys m) ≡ false → mem j (keys (del k m)) ≡ false
  unfolding del mem
  mem-del j k [] h = refl
  mem-del j k ((i, w) ∷ m) h = ground (arith, mem-del j k m)

  pub del-Distinct : (k : K) (m : Dict K V) → Distinct (keys m) → Distinct (keys (del k m))
  unfolding del mem
  del-Distinct k [] d = tt
  del-Distinct k ((j, w) ∷ m) d = ground (arith, del-Distinct k m d.1, mem-del j k m)

module _ {K V : Type 0} ⦃e : Keyed K⦄ where
  pub last_of-In : (k : K) (v : V) (es : List (K × V)) → last_of k es ≡ some v → In (k, v) es
  unfolding last_of
  last_of-In k v [] h = absurd (cc)
  last_of-In k v ((j, w) ∷ es) h = ground (arith, last_of-In k v es, e.same_key_iff j k)

  pub last_of-ne-none : (k : K) (v : V) (es : List (K × V)) → In (k, v) es → last_of k es ≢ none
  unfolding last_of
  last_of-ne-none k v [] h = absurd h
  last_of-ne-none k v ((j, w) ∷ es) (inl h) = ground (arith, e.same_key_iff j k)
  last_of-ne-none k v ((j, w) ∷ es) (inr h) = ground (arith, last_of-ne-none k v es h)

  -- In a `Map` the entry of a key is the one that a lookup finds.
  pub get-of_In :
      (k : K) (v : V) (m : Dict K V) → Distinct (keys m) → In (k, v) m → get k m ≡ some v
  unfolding get mem
  get-of_In k v [] d h = absurd h
  get-of_In k v ((j, w) ∷ m) d (inl h) = ground (arith, e.same_key_iff j k)
  get-of_In k v ((j, w) ∷ m) d (inr h) =
      ground (arith, e.same_key_iff j k, get-of_In k v m d.1 h, mem-keys j m)

  pub In-of_get : (k : K) (v : V) (m : Dict K V) → get k m ≡ some v → In (k, v) m
  unfolding get
  In-of_get k v [] h = absurd (cc)
  In-of_get k v ((j, w) ∷ m) h = ground (arith, e.same_key_iff j k, In-of_get k v m)

  pub In-put :
      (k j : K) (v w : V) (m : Dict K V) → In (k, v) (put j w m) → ((j ≡ k) × (w ≡ v)) ⊎ In (k, v) m
  unfolding put
  In-put k j v w [] (inl h) = inl (ap (λ p. p.0) h, ap (λ p. p.1) h)
  In-put k j v w [] (inr h) = absurd h
  In-put k j v w ((i, u) ∷ m) h = elim (beq-cases i j) [
    | inl (t, q) ↦ first q (rw t at h)
    | inr (f, q) ↦ second (In-put k j v w m) (rw f at h)
  ]
    where
      first : i ≡ j → In (k, v) ((i, w) ∷ m) → ((j ≡ k) × (w ≡ v)) ⊎ In (k, v) ((i, u) ∷ m)
      first q (inl e) = inl (sym q ∙ ap (λ p. p.0) e, ap (λ p. p.1) e)
      first q (inr r) = inr (inr r)

      second :
          (In (k, v) (put j w m) → ((j ≡ k) × (w ≡ v)) ⊎ In (k, v) m)
          → In (k, v) ((i, u) ∷ put j w m)
          → ((j ≡ k) × (w ≡ v)) ⊎ In (k, v) ((i, u) ∷ m)
      second rest (inl e) = inr (inl e)
      second rest (inr r) = elim (rest r) [ inl a ↦ inl a | inr b ↦ inr (inr b) ]

  pub In-put_all :
      (k : K) (v : V) (es m : List (K × V)) → In (k, v) (put_all es m) → In (k, v) es ⊎ In (k, v) m
  unfolding put_all
  In-put_all k v [] m h = inr h
  In-put_all k v ((j, w) ∷ es) m h = elim (In-put_all k v es (put j w m) h) [
    | inl a ↦ inl (inr a)
    | inr b ↦ elim (In-put k j v w m b) [
      | inl (p, q) ↦ inl (inl (ap₂ (λ x y. (x, y)) p q))
      | inr c ↦ inr c
    ]
  ]

  pub get-ne-none : (k : K) (v : V) (m : Dict K V) → In (k, v) m → get k m ≢ none
  unfolding get
  get-ne-none k v [] h = absurd h
  get-ne-none k v ((j, w) ∷ m) (inl h) = ground (arith, e.same_key_iff j k)
  get-ne-none k v ((j, w) ∷ m) (inr h) = ground (arith, e.same_key_iff j k, get-ne-none k v m h)
