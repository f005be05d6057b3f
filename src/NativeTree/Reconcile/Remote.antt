-- ===== src/NativeTree/Reconcile/Remote.antt =====
-- What a reconcile does to the ids of other peers.
use anvilkit_plugin_collab_y.Base.{
  ℕ, zero, suc, ◌≡◌, refl, ap, ◌∙◌, Bool, true, false, not, ◌&&◌, some, List, [], ◌∷◌, String, ◌==◌,
  string_eq, if◌then◌else◌, get_elem?, keep, arith, if-both, beq-cases, Option-cases, inl, inr, ltb,
  ◌-◌,
}
use anvilkit_plugin_collab_y.Base.IdSet.{mem}
use anvilkit_plugin_collab_y.NativeTree.Reconcile.{
  delete_at, insert_at, index_of, controlled_index, Arrays, local_remove, remove_phase, add_one,
  add_phase, place, place_at, move, reorder_phase, reconcile_phases, reconcile_keyed_array,
  insert_position, same_list,
}
use anvilkit_plugin_collab_y.NativeTree.Reconcile.Mirror.{reconcile_phases-mirror}

-- Elements that fail a test come and go without a change of what passes it.
keep-insert_at :
    (p : String → Bool) (i : ℕ) (x : String) (xs : List String)
    → p x ≡ false
    → keep p (insert_at i x xs) ≡ keep p xs
unfolding insert_at
keep-insert_at p zero x xs h = ground (arith, h)
keep-insert_at p (suc i) x [] h = ground (arith, h)
keep-insert_at p (suc i) x (y ∷ ys) h = ground (arith, keep-insert_at p i x ys h)

keep-delete_at :
    (p : String → Bool) (x : String) (xs : List String) (i : ℕ)
    → index_of x xs ≡ some i
    → p x ≡ false
    → keep p (delete_at i xs) ≡ keep p xs
unfolding delete_at index_of
keep-delete_at p x [] i h f = absurd (cc)
keep-delete_at p x (y ∷ ys) zero h f = elim (beq-cases y x) [
  | inl (t, q) ↦ ground (arith, ap p q, f)
  | inr (g, q) ↦ absurd (ground (arith, h, g))
]
keep-delete_at p x (y ∷ ys) (suc i) h f = elim (beq-cases y x) [
  | inl (t, q) ↦ absurd (ground (arith, h, t))
  | inr (g, q) ↦ ground (arith, keep-delete_at p x ys i, h, g, f)
]

keep-keep :
    (p q : String → Bool) (xs : List String)
    → ((x : String) → p x ≡ true → q x ≡ true)
    → keep p (keep q xs) ≡ keep p xs
keep-keep p q [] h = refl
keep-keep p q (x ∷ xs) h = ground (arith, h x, keep-keep p q xs h)

keep_none :
    (p : String → Bool) (xs : List String)
    → ((x : String) → mem x xs ≡ true → p x ≡ false)
    → keep p xs ≡ []
unfolding mem
keep_none p [] h = refl
keep_none p (x ∷ xs) h =
    ground (arith, h x, string_eq.same_key_iff x x, keep_none p xs (λ y m. ground (arith, h y, m)))

module _ (base desired : List String) where
  -- Neither in the base nor desired: the id is another peer's.
  abbrev pub foreign : String → Bool
  foreign id = not (mem id base) && not (mem id desired)

  add_one-foreign :
      (before : List String) (id : String) (a : Arrays)
      → foreign id ≡ false
      → keep foreign (add_one base desired before id a).work ≡ keep foreign a.work
  unfolding add_one
  add_one-foreign before id a f =
      ground
        (arith, keep-insert_at foreign (insert_position base desired a.work before) id a.work f)

  add_phase-foreign :
      (ids before : List String) (a : Arrays)
      → ((x : String) → mem x ids ≡ true → foreign x ≡ false)
      → keep foreign (add_phase base desired before ids a).work ≡ keep foreign a.work
  unfolding add_phase mem
  add_phase-foreign [] before a f = refl
  add_phase-foreign (id ∷ ids) before a f =
      add_phase-foreign ids (id ∷ before) (add_one base desired before id a)
        (λ y m. f y (ground (arith, m)))
      ∙ add_one-foreign before id a (f id (ground (arith, string_eq.same_key_iff id id)))

  move-foreign :
      (from abs_index : ℕ) (want : String) (a : Arrays)
      → index_of want a.work ≡ some from
      → foreign want ≡ false
      → keep foreign (move base desired from abs_index want a).work ≡ keep foreign a.work
  unfolding move
  move-foreign from abs_index want a e f =
      keep-insert_at foreign (if ltb from abs_index then abs_index - 1 else abs_index) want
        (delete_at from a.work) f
      ∙ keep-delete_at foreign want a.work from e f

  abbrev Same : List String → Arrays → Type 0
  Same xs a = keep foreign a.work ≡ keep foreign xs

  place_at-foreign :
      (abs_index : ℕ) (want : String) (a : Arrays)
      → foreign want ≡ false
      → Same a.work (place_at base desired abs_index want a)
  unfolding place_at
  place_at-foreign abs_index want a f = elim (Option-cases (get_elem? a.work abs_index)) [
    | inl g ↦ rw (g, place_at) refl
    | inr (there, g) ↦
        rw (g, place_at)
          (if-both (Same a.work) (there == want) _ _ (λ t. refl)
            (λ n. elim (Option-cases (index_of want a.work)) [
              | inl e ↦ rw e refl
              | inr (from, e) ↦ rw e (move-foreign from abs_index want a e f)
            ]))
  ]

  place-foreign :
      (slot : ℕ) (want : String) (a : Arrays)
      → foreign want ≡ false
      → Same a.work (place base desired slot want a)
  unfolding place
  place-foreign slot want a f = elim (Option-cases (controlled_index base desired a.work slot)) [
    | inl g ↦ rw (g, place) refl
    | inr (i, g) ↦ rw (g, place) (place_at-foreign i want a f)
  ]

  reorder_phase-foreign :
      (ids : List String) (slot : ℕ) (a : Arrays)
      → ((x : String) → mem x ids ≡ true → foreign x ≡ false)
      → Same a.work (reorder_phase base desired slot ids a)
  unfolding reorder_phase mem
  reorder_phase-foreign [] slot a f = refl
  reorder_phase-foreign (id ∷ ids) slot a f =
      reorder_phase-foreign ids (suc slot) (place base desired slot id a)
        (λ y m. f y (ground (arith, m)))
      ∙ place-foreign slot id a (f id (ground (arith, string_eq.same_key_iff id id)))

  desired-foreign : (x : String) → mem x desired ≡ true → foreign x ≡ false
  desired-foreign x m = ground (arith, m)

  reconcile_phases-foreign :
      (cur : List String)
      → keep foreign (reconcile_phases base desired cur).target ≡ keep foreign cur
  unfolding reconcile_phases remove_phase local_remove
  reconcile_phases-foreign cur =
      ap (keep foreign) (reconcile_phases-mirror base desired cur)
      ∙ (reorder_phase-foreign desired 0 _ desired-foreign
          ∙ (add_phase-foreign desired [] (remove_phase base desired cur) desired-foreign
              ∙ keep-keep foreign (λ id. not (local_remove base desired id)) cur
                  (λ x f. ground (arith, f))))

  -- Whatever the base, the desired list and the live contents of the array, the ids in it that
  -- are neither in the base nor desired, those that other peers added, are all kept, as often
  -- and in the same order, and no such id is added.
  pub reconcile_keyed_array-foreign :
      (cur : List String) → keep foreign (reconcile_keyed_array base desired cur) ≡ keep foreign cur
  unfolding reconcile_keyed_array
  reconcile_keyed_array-foreign [] =
      if-both (λ xs. keep foreign xs ≡ []) (same_list [] desired) _ _ (λ t. refl)
        (λ f. keep_none foreign desired desired-foreign)
  reconcile_keyed_array-foreign (x ∷ xs) =
      if-both (λ ys. keep foreign ys ≡ keep foreign (x ∷ xs)) (same_list (x ∷ xs) desired) _ _
        (λ t. refl) (λ f. reconcile_phases-foreign (x ∷ xs))
