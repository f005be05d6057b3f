-- ===== src/NativeTree/Reconcile/Mirror.antt =====
-- The array and the mirror agree.
use anvilkit_plugin_collab_y.Base.{
  ℕ, zero, suc, ◌-◌, ltb, ◌≡◌, refl, ap, not, List, [], ◌∷◌, String, ◌==◌, string_eq, if◌then◌else◌,
  length, get_elem?, keep, arith, if-both, Option-cases, inl, inr,
}
use anvilkit_plugin_collab_y.Base.IdSet.{mem}
use anvilkit_plugin_collab_y.NativeTree.Reconcile.{
  delete_at, insert_at, index_of, controlled_index, Arrays, local_remove, removed_at, delete_locals,
  remove_phase, add_one, add_phase, place, place_at, move, reorder_phase, reconcile_phases,
}

moved :
    (abs_index from : ℕ) (want : String) {xs ys : List String}
    → xs ≡ ys
    → insert_at (if ltb from abs_index then abs_index - 1 else abs_index) want (delete_at from xs)
      ≡ insert_at (if ltb from abs_index then abs_index - 1 else abs_index) want (delete_at from ys)
moved abs_index from want h =
    ap
      (λ zs.
        insert_at (if ltb from abs_index then abs_index - 1 else abs_index) want
          (delete_at from zs))
      h

module _ (base desired : List String) where
  -- The indices above 0 are those of the rest of the list.
  delete_locals-cons :
      (n : ℕ) (x : String) (xs t : List String)
      → delete_locals base desired (x ∷ xs) (suc n) (x ∷ t) ≡ (
          if local_remove base desired x
          then delete_locals base desired xs n t
          else x ∷ delete_locals base desired xs n t)
  unfolding delete_locals removed_at delete_at
  delete_locals-cons zero x xs t = ground arith
  delete_locals-cons (suc n) x xs t =
      ground (arith, delete_locals-cons n x xs t, delete_locals-cons n x xs (delete_at n t))

  delete_locals-keep :
      (cur : List String)
      → delete_locals base desired cur (length cur) cur
        ≡ keep (λ id. not (local_remove base desired id)) cur
  unfolding delete_locals
  delete_locals-keep [] = refl
  delete_locals-keep (x ∷ xs) =
      ground (arith, delete_locals-cons (length xs) x xs xs, delete_locals-keep xs)

  abbrev Mirrors : Arrays → Type 0
  Mirrors a = a.target ≡ a.work

  add_one-Mirrors :
      (before : List String) (id : String) (a : Arrays)
      → Mirrors a
      → Mirrors (add_one base desired before id a)
  unfolding add_one
  add_one-Mirrors before id a h =
      if-both Mirrors (mem id base) _ _ (λ t. h)
        (λ f. if-both Mirrors (mem id a.work) _ _ (λ t. h) (λ g. ap (insert_at _ id) h))

  add_phase-Mirrors :
      (ids before : List String) (a : Arrays)
      → Mirrors a
      → Mirrors (add_phase base desired before ids a)
  unfolding add_phase
  add_phase-Mirrors [] before a h = h
  add_phase-Mirrors (id ∷ ids) before a h =
      add_phase-Mirrors ids (id ∷ before) (add_one base desired before id a)
        (add_one-Mirrors before id a h)

  place_at-Mirrors :
      (abs_index : ℕ) (want : String) (a : Arrays)
      → Mirrors a
      → Mirrors (place_at base desired abs_index want a)
  unfolding place_at move
  place_at-Mirrors abs_index want a h = elim (Option-cases (get_elem? a.work abs_index)) [
    | inl g ↦ rw (g, place_at) h
    | inr (there, g) ↦
        rw (g, place_at)
          (if-both Mirrors (there == want) _ _ (λ t. h)
            (λ f. elim (Option-cases (index_of want a.work)) [
              | inl e ↦ rw e h
              | inr (from, e) ↦ rw e (moved abs_index from want h)
            ]))
  ]

  place-Mirrors :
      (slot : ℕ) (want : String) (a : Arrays) → Mirrors a → Mirrors (place base desired slot want a)
  unfolding place
  place-Mirrors slot want a h = elim (Option-cases (controlled_index base desired a.work slot)) [
    | inl g ↦ rw (g, place) h
    | inr (i, g) ↦ rw (g, place) (place_at-Mirrors i want a h)
  ]

  reorder_phase-Mirrors :
      (ids : List String) (slot : ℕ) (a : Arrays)
      → Mirrors a
      → Mirrors (reorder_phase base desired slot ids a)
  unfolding reorder_phase
  reorder_phase-Mirrors [] slot a h = h
  reorder_phase-Mirrors (id ∷ ids) slot a h =
      reorder_phase-Mirrors ids (suc slot) (place base desired slot id a)
        (place-Mirrors slot id a h)

  -- For any base, desired list and contents of the array, the inserts and deletes that the three
  -- phases do on the array leave in it what the mirror holds: no index is off, although the
  -- removals are done from the highest index down and the mirror is filtered in order.
  pub reconcile_phases-mirror :
      (cur : List String)
      → (reconcile_phases base desired cur).target ≡ (reconcile_phases base desired cur).work
  unfolding reconcile_phases remove_phase
  reconcile_phases-mirror cur =
      reorder_phase-Mirrors desired 0 _
        (add_phase-Mirrors desired [] (remove_phase base desired cur) (delete_locals-keep cur))
