-- ===== src/NativeTree/Reconcile/Alone.antt =====
-- The keyed reconcile when no other peer has changed the array.
use anvilkit_plugin_collab_y.Base.{
  ℕ, ◌≡◌, refl, sym, ◌∙◌, subst, inl, inr, true, false, not, ◌&&◌, List, [], ◌∷◌, String, string_eq,
  beq_refl, beq-cases, if-both, arith,
}
use anvilkit_plugin_collab_y.Base.IdSet.{mem, Distinct}
use anvilkit_plugin_collab_y.NativeTree.Reconcile.{
  Arrays, insert_at, same_list, local_remove, remove_phase, add_one, add_phase, insert_position,
  reconcile_phases, reconcile_keyed_array,
}
use anvilkit_plugin_collab_y.NativeTree.Reconcile.Mirror.{reconcile_phases-mirror}
use anvilkit_plugin_collab_y.NativeTree.Reconcile.Lists.{
  mem-keep, keep-Distinct, mem-insert_at, insert_at-Distinct, same_list-eq,
}
use anvilkit_plugin_collab_y.NativeTree.Reconcile.Placing.{reorder_phase-desired}

-- The base and the desired list, both without repetition.
module _ (base desired : List String) where
  -- What the phase of additions has reached: nothing twice, nothing that is not desired, and
  -- every desired id that was there or has been gone through.
  record Added (ids work : List String) : Type 0 where
    once : Distinct work
    wanted : (x : String) → mem x work ≡ true → mem x desired ≡ true
    kept : (x : String) → mem x base ≡ true → mem x desired ≡ true → mem x work ≡ true
    done : (x : String) → mem x desired ≡ true → mem x ids ≡ false → mem x work ≡ true

  Added-same :
      (ids : List String) (id : String) (work : List String)
      → mem id work ≡ true
      → Added (id ∷ ids) work
      → Added ids work
  unfolding mem
  Added-same ids id work t h = record {
    once = h.once;
    wanted = h.wanted;
    kept = h.kept;
    done = λ x m n. elim (beq-cases id x) [
      | inl (c, e) ↦ subst (λ z. mem z work ≡ true) e t
      | inr (c, e) ↦ h.done x m (ground (arith, c, n))
    ];
  }

  Added-insert :
      (ids : List String) (id : String) (i : ℕ) (work : List String)
      → mem id desired ≡ true
      → mem id work ≡ false
      → Added (id ∷ ids) work
      → Added ids (insert_at i id work)
  unfolding mem
  Added-insert ids id i work w f h = record {
    once = insert_at-Distinct i id work h.once f;
    wanted = λ x m. elim (beq-cases id x) [
      | inl (c, e) ↦ subst (λ z. mem z desired ≡ true) e w
      | inr (c, e) ↦ h.wanted x (ground (arith, mem-insert_at i id x work, c, m))
    ];
    kept = λ x b m. ground (arith, mem-insert_at i id x work, h.kept x b m);
    done = λ x m n. elim (beq-cases id x) [
      | inl (c, e) ↦ ground (arith, mem-insert_at i id x work, c)
      | inr (c, e) ↦ ground (arith, mem-insert_at i id x work, h.done x m (ground (arith, c, n)))
    ];
  }

  add_one-Added :
      (before ids : List String) (id : String) (a : Arrays)
      → mem id desired ≡ true
      → Added (id ∷ ids) a.work
      → Added ids (add_one base desired before id a).work
  unfolding add_one
  add_one-Added before ids id a w h =
      if-both (λ (b : Arrays). Added ids b.work) (mem id base) _ _
        (λ t. Added-same ids id a.work (h.kept id t w) h)
        (λ f.
          if-both (λ (b : Arrays). Added ids b.work) (mem id a.work) _ _
            (λ t. Added-same ids id a.work t h)
            (λ n. Added-insert ids id (insert_position base desired a.work before) a.work w n h))

  add_phase-Added :
      (before ids : List String) (a : Arrays)
      → ((x : String) → mem x ids ≡ true → mem x desired ≡ true)
      → Added ids a.work
      → Added [] (add_phase base desired before ids a).work
  unfolding add_phase mem
  add_phase-Added before [] a w h = h
  add_phase-Added before (id ∷ ids) a w h =
      add_phase-Added (id ∷ before) ids (add_one base desired before id a)
        (λ x m. w x (ground (arith, m)))
        (add_one-Added before ids id a (w id (ground (arith, beq_refl id))) h)

  remove_phase-Added : Distinct base → Added desired (remove_phase base desired base).work
  unfolding remove_phase local_remove
  remove_phase-Added d =
      let p = λ (id : String). not (mem id base && not (mem id desired)) in
      record {
        once = keep-Distinct p base d;
        wanted = λ x m. ground (arith, mem-keep p x base, m);
        kept = λ x b m. ground (arith, mem-keep p x base, b, m);
        done = λ x m n. absurd (cc (m, n));
      }

  -- The additions leave the desired ids in some order, which the last phase puts right.
  phases-desired :
      Distinct base → Distinct desired → (reconcile_phases base desired base).target ≡ desired
  unfolding reconcile_phases mem
  phases-desired db dd =
      let start = remove_phase base desired base in
      let added = add_phase-Added [] desired start (λ x m. m) (remove_phase-Added db) in
      let work = (add_phase base desired [] desired start).work in
      reconcile_phases-mirror base desired base
      ∙ reorder_phase-desired base desired [] desired (add_phase base desired [] desired start) refl
          dd
          (record {
            rest = work;
            split = refl;
            same = λ x. ground (arith, added.wanted x, added.done x);
            once = added.once;
          })

  -- When the array still holds the base, and neither list repeats an id, the reconcile leaves
  -- exactly the desired list: children added, removed and moved locally come out in order.
  pub reconcile_keyed_array-alone :
      Distinct base → Distinct desired → reconcile_keyed_array base desired base ≡ desired
  unfolding reconcile_keyed_array
  reconcile_keyed_array-alone db dd = go base refl
    where
      go : (cur : List String) → cur ≡ base → reconcile_keyed_array base desired cur ≡ desired
      go [] e =
          if-both (λ xs. xs ≡ desired) (same_list [] desired) _ _ (λ t. same_list-eq [] desired t)
            (λ f. refl)
      go (x ∷ xs) e =
          if-both (λ ys. ys ≡ desired) (same_list (x ∷ xs) desired) _ _
            (λ t. same_list-eq (x ∷ xs) desired t)
            (λ f.
              subst (λ cur. (reconcile_phases base desired cur).target ≡ desired) (sym e)
                (phases-desired db dd))
