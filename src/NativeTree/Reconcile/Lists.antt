-- ===== src/NativeTree/Reconcile/Lists.antt =====
-- What inserts, deletes and index searches do to a list of ids.
use anvilkit_plugin_collab_y.Base.{
  ℕ, zero, suc, ◌+◌, ◌≡◌, refl, sym, ap, ◌∙◌, subst, inl, inr, Bool, true, false, ◌&&◌, ◌||◌, some,
  List, [], ◌∷◌, ◌++◌, String, ◌==◌, string_eq, beq_refl, beq-cases, arith, length, get_elem?, keep,
}
use anvilkit_plugin_collab_y.Base.IdSet.{mem, Distinct, discard, discard_absent, mem-append}
use anvilkit_plugin_collab_y.NativeTree.Reconcile.{delete_at, insert_at, index_of, same_list}

pub mem-keep :
    (p : String → Bool) (x : String) (xs : List String) → mem x (keep p xs) ≡ (p x && mem x xs)
unfolding mem
mem-keep p x [] = ground arith
mem-keep p x (y ∷ ys) = elim (beq-cases y x) [
  | inl (t, e) ↦
      subst (λ z. mem z (keep p (y ∷ ys)) ≡ (p z && mem z (y ∷ ys))) e
        (ground (arith, beq_refl y, mem-keep p y ys))
  | inr (f, e) ↦ ground (arith, f, mem-keep p x ys)
]

pub keep-Distinct : (p : String → Bool) (xs : List String) → Distinct xs → Distinct (keep p xs)
keep-Distinct p [] d = tt
keep-Distinct p (x ∷ xs) d = ground (arith, keep-Distinct p xs d.1, mem-keep p x xs)

pub mem-insert_at :
    (i : ℕ) (x y : String) (xs : List String) → mem y (insert_at i x xs) ≡ (x == y || mem y xs)
unfolding insert_at mem
mem-insert_at zero x y xs = refl
mem-insert_at (suc i) x y [] = refl
mem-insert_at (suc i) x y (z ∷ zs) = ground (arith, mem-insert_at i x y zs)

pub insert_at-Distinct :
    (i : ℕ) (x : String) (xs : List String)
    → Distinct xs
    → mem x xs ≡ false
    → Distinct (insert_at i x xs)
unfolding insert_at mem
insert_at-Distinct zero x xs d h = (h, d)
insert_at-Distinct (suc i) x [] d h = (refl, tt)
insert_at-Distinct (suc i) x (z ∷ zs) d h = ground (
  arith,
  insert_at-Distinct i x zs d.1,
  mem-insert_at i x z zs,
  string_eq.same_key_iff x z,
  string_eq.same_key_iff z x,
)

pub insert_at-append :
    (x : String) (ps xs : List String) → insert_at (length ps) x (ps ++ xs) ≡ ps ++ (x ∷ xs)
unfolding insert_at
insert_at-append x [] xs = refl
insert_at-append x (p ∷ ps) xs = ap (◌∷◌ p) (insert_at-append x ps xs)

pub delete_at-append :
    (i : ℕ) (ps xs : List String) → delete_at (length ps + i) (ps ++ xs) ≡ ps ++ delete_at i xs
unfolding delete_at
delete_at-append i [] xs = ap (λ n. delete_at n xs) (omega arith)
delete_at-append i (p ∷ ps) xs =
    let next : suc (length ps) + i ≡ suc (length ps + i) = omega arith in
    ap (λ n. delete_at n (p ∷ (ps ++ xs))) next ∙ ap (◌∷◌ p) (delete_at-append i ps xs)

pub get_elem-append :
    (x : String) (ps xs : List String) → get_elem? (ps ++ (x ∷ xs)) (length ps) ≡ some x
get_elem-append x [] xs = refl
get_elem-append x (p ∷ ps) xs = get_elem-append x ps xs

-- An element that stands once in the list: its index, and the list without it.
pub index_of-discard :
    (x : String) (xs : List String)
    → Distinct xs
    → mem x xs ≡ true
    → (i : ℕ) × (index_of x xs ≡ some i) × (delete_at i xs ≡ discard x xs)
unfolding index_of delete_at discard mem
index_of-discard x [] d h = absurd (cc (h))
index_of-discard x (y ∷ ys) d h = elim (beq-cases y x) [
  | inl (t, e) ↦ rw t (0, refl, subst (λ z. ys ≡ discard z ys) e (sym (discard_absent y ys d.0)))
  | inr (f, e) ↦
      let (i, p, q) = index_of-discard x ys d.1 (ground (arith, h, f)) in
      rw (f, p) (suc i, refl, ap (◌∷◌ y) q)
]

pub index_of-append :
    (x : String) (i : ℕ) (ps xs : List String)
    → mem x ps ≡ false
    → index_of x xs ≡ some i
    → index_of x (ps ++ xs) ≡ some (length ps + i)
unfolding index_of mem
index_of-append x i [] xs h e = e ∙ ap some (omega arith)
index_of-append x i (p ∷ ps) xs h e =
    let next : suc (length ps + i) ≡ suc (length ps) + i = omega arith in
    rw (first, index_of-append x i ps xs (ground (arith, h)) e) (ap some next)
  where
    first : (p == x) ≡ false
    first = ground (arith, h)

pub same_list-eq : (xs ys : List String) → same_list xs ys ≡ true → xs ≡ ys
unfolding same_list
same_list-eq [] [] h = refl
same_list-eq [] (y ∷ ys) h = cc
same_list-eq (x ∷ xs) [] h = cc
same_list-eq (x ∷ xs) (y ∷ ys) h = ground (arith, h, same_list-eq xs ys, string_eq.same_key_iff x y)

pub nobody : (x : String) (xs : List String) → mem x (x ∷ xs) ≡ mem x [] → ⊥
unfolding mem
nobody x xs h = cc (h, beq_refl x)

pub longer : (ps : List String) (id : String) → length (ps ++ (id ∷ [])) ≡ suc (length ps)
longer [] id = refl
longer (p ∷ ps) id = ap suc (longer ps id)

pub Distinct-middle :
    (ps : List String) (x : String) (xs : List String)
    → Distinct (ps ++ (x ∷ xs))
    → (mem x ps ≡ false) × (mem x xs ≡ false)
unfolding mem
Distinct-middle [] x xs d = (refl, d.0)
Distinct-middle (p ∷ ps) x xs d =
    let r = Distinct-middle ps x xs d.1 in
    (
      ground (
        arith,
        d.0,
        mem-append p ps (x ∷ xs),
        string_eq.same_key_iff p x,
        string_eq.same_key_iff x p,
        r.0,
      ),
      r.1,
    )
