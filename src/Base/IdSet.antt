-- ===== src/Base/IdSet.antt =====
-- A JavaScript `Set`: elements in insertion order, each at most once.
use Prim.Native.Nat.{◌+◌}
use mathlib.Core.Path.{◌≡◌, refl, sym, ap, ◌∙◌, subst}
use mathlib.Core.Bool.{Bool, true, false, ◌||◌}
use mathlib.Core.Logic.{inl, inr}
use mathlib.Core.List.{List, [], ◌∷◌, ◌++◌, map}
use native.Mathlib.Omega.{arith}
use anvilkit_plugin_collab_y.Base.Bools.{if◌then◌else◌, Bool-cases}
use anvilkit_plugin_collab_y.Base.Lists.{length}
use anvilkit_plugin_collab_y.Base.Members.{In}
use anvilkit_plugin_collab_y.Base.Keys.{Keyed, ◌==◌}

module _ {ℓ} {K : Type ℓ} ⦃e : Keyed K⦄ where
  unfoldable pub mem : K → List K → Bool
  mem k [] = false
  mem k (x ∷ xs) = x == k || mem k xs

  unfoldable pub add : K → List K → List K
  add k xs = if mem k xs then xs else xs ++ (k ∷ [])

  unfoldable pub add_all : List K → List K → List K
  add_all [] xs = xs
  add_all (k ∷ ks) xs = add_all ks (add k xs)

  unfoldable pub discard : K → List K → List K
  discard k [] = []
  discard k (x ∷ xs) = if x == k then discard k xs else x ∷ discard k xs

  -- No element twice.
  abbrev pub Distinct : List K → Type 0
  Distinct [] = Unit
  Distinct (x ∷ xs) = (mem x xs ≡ false) × Distinct xs

  pub mem-append : (k : K) (xs ys : List K) → mem k (xs ++ ys) ≡ (mem k xs || mem k ys)
  unfolding mem
  mem-append k [] ys = refl
  mem-append k (x ∷ xs) ys = ground (arith, mem-append k xs ys)

  pub mem-add : (j k : K) (xs : List K) → mem j (add k xs) ≡ (k == j || mem j xs)
  unfolding add mem
  mem-add j k xs = ground (arith, mem-append j xs (k ∷ []), e.same_key_iff k j)

  pub mem-add_all : (j : K) (ks xs : List K) → mem j (add_all ks xs) ≡ (mem j ks || mem j xs)
  unfolding add_all mem
  mem-add_all j [] xs = refl
  mem-add_all j (k ∷ ks) xs = ground (arith, mem-add_all j ks (add k xs), mem-add j k xs)

  pub mem-discard :
      (j k : K) (xs : List K) → mem j (discard k xs) ≡ (if k == j then false else mem j xs)
  unfolding discard mem
  mem-discard j k [] = ground arith
  mem-discard j k (x ∷ xs) =
      ground (arith, e.same_key_iff k j, e.same_key_iff x k, e.same_key_iff x j, mem-discard j k xs)

  pub discard-Distinct : (k : K) (xs : List K) → Distinct xs → Distinct (discard k xs)
  unfolding discard
  discard-Distinct k [] d = tt
  discard-Distinct k (x ∷ xs) d = ground (arith, discard-Distinct k xs d.1, mem-discard x k xs)

  append_one-Distinct :
      (k : K) (xs : List K) → Distinct xs → mem k xs ≡ false → Distinct (xs ++ (k ∷ []))
  unfolding mem
  append_one-Distinct k [] d h = (refl, tt)
  append_one-Distinct k (x ∷ xs) d h = ground (
    arith,
    append_one-Distinct k xs d.1,
    mem-append x xs (k ∷ []),
    e.same_key_iff x k,
    e.same_key_iff k x,
  )

  pub add-Distinct : (k : K) (xs : List K) → Distinct xs → Distinct (add k xs)
  unfolding add
  add-Distinct k xs d = elim (Bool-cases (mem k xs)) [
    | inl t ↦ rw t d
    | inr f ↦ rw f (append_one-Distinct k xs d f)
  ]

  -- Discarding an element that is there once takes one away.
  pub discard_absent : (k : K) (xs : List K) → mem k xs ≡ false → discard k xs ≡ xs
  unfolding discard mem
  discard_absent k [] h = refl
  discard_absent k (x ∷ xs) h = ground (arith, discard_absent k xs)

  pub length-discard :
      (k : K) (xs : List K) → Distinct xs → mem k xs ≡ true → length (discard k xs) + 1 ≡ length xs
  unfolding discard mem
  length-discard k [] d h = cc
  length-discard k (x ∷ xs) d h =
      ground (arith, length-discard k xs d.1, e.same_key_iff x k, discard_absent k xs)

-- Two lists one after the other have no element twice exactly when neither has and they share none.
module _ {K : Type 0} ⦃e : Keyed K⦄ where
  pub append-Distinct :
      (xs ys : List K)
      → Distinct xs
      → Distinct ys
      → ((x : K) → mem x xs ≡ true → mem x ys ≡ false)
      → Distinct (xs ++ ys)
  unfolding mem
  append-Distinct [] ys dx dy h = dy
  append-Distinct (x ∷ xs) ys dx dy h = (
    ground (arith, mem-append x xs ys, h x, (e.same_key_iff x x).1 refl, dx.0),
    append-Distinct xs ys dx.1 dy (λ y m. h y (ground (arith, m))),
  )

  pub Distinct-append :
      (xs ys : List K)
      → Distinct (xs ++ ys)
      → Distinct xs × Distinct ys × ((x : K) → mem x ys ≡ true → mem x xs ≡ false)
  unfolding mem
  Distinct-append [] ys d = (tt, d, λ x m. refl)
  Distinct-append (x ∷ xs) ys d =
      let r = Distinct-append xs ys d.1 in
      (
        (ground (arith, mem-append x xs ys, d.0), r.0),
        r.1,
        λ y m. ground (arith, r.2 y m, apart y m),
      )
    where
      apart : (y : K) → mem y ys ≡ true → (x == y) ≡ false
      apart y m = elim (Bool-cases (x == y)) [
        | inr f ↦ f
        | inl t ↦
            let same = (e.same_key_iff x y).0 t in
            let gone : mem x ys ≡ false = ground (arith, mem-append x xs ys, d.0) in
            absurd (cc (gone, subst (λ z. mem z ys ≡ true) (sym same) m))
      ]

-- Under a map into distinct keys an element is found again by its key.
mem_of_In :
    {A K : Type 0} ⦃e : Keyed K⦄ (f : A → K) (a : A) (xs : List A)
    → In a xs
    → mem (f a) (map f xs) ≡ true
unfolding mem
mem_of_In f a [] h = absurd h
mem_of_In ⦃e⦄ f a (x ∷ xs) (inl h) = ground (arith, (e.same_key_iff (f x) (f a)).1, ap f h)
mem_of_In ⦃e⦄ f a (x ∷ xs) (inr h) = ground (arith, mem_of_In f a xs h)

pub Distinct-injective :
    {A K : Type 0} ⦃e : Keyed K⦄ (f : A → K) (a b : A) (xs : List A)
    → Distinct (map f xs)
    → In a xs
    → In b xs
    → f a ≡ f b
    → a ≡ b
Distinct-injective f a b [] d ha hb p = absurd ha
Distinct-injective f a b (x ∷ xs) d (inl p) (inl q) r = sym p ∙ q
Distinct-injective f a b (x ∷ xs) d (inl p) (inr q) r =
    absurd (cc (mem_of_In f b xs q, d.0, ap f p, r))
Distinct-injective f a b (x ∷ xs) d (inr p) (inl q) r =
    absurd (cc (mem_of_In f a xs p, d.0, ap f q, r))
Distinct-injective f a b (x ∷ xs) d (inr p) (inr q) r = Distinct-injective f a b xs d.1 p q r
