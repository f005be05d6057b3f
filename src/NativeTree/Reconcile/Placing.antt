-- ===== src/NativeTree/Reconcile/Placing.antt =====
-- The reordering phase where every id of the array is desired: it puts the desired order.
use anvilkit_plugin_collab_y.Base.{
  ℕ, suc, ◌+◌, ◌-◌, ◌≡◌, refl, sym, ap, ◌∙◌, subst, inl, inr, true, false, ◌||◌, some, List, [],
  ◌∷◌, ◌++◌, String, ◌==◌, string_eq, beq_refl, beq-cases, if◌then◌else◌, ltb, arith, length,
  get_elem?,
}
use anvilkit_plugin_collab_y.Base.IdSet.{
  mem, Distinct, discard, mem-append, mem-discard, discard-Distinct,
}
use anvilkit_plugin_collab_y.NativeTree.Reconcile.{
  Arrays, delete_at, insert_at, index_of, controlled_index, move, place_at, place, reorder_phase,
}
use mathlib.Core.List.{append_assoc}
use anvilkit_plugin_collab_y.NativeTree.Reconcile.Lists.{
  insert_at-append, delete_at-append, get_elem-append, index_of-discard, index_of-append, nobody,
  longer, Distinct-middle,
}

module _ (base desired : List String) where
  -- Where every element is desired, the element number `slot` is the one at `slot`.
  controlled_index-all :
      (ps : List String) (x : String) (xs : List String)
      → ((y : String) → mem y (ps ++ (x ∷ xs)) ≡ true → mem y desired ≡ true)
      → controlled_index base desired (ps ++ (x ∷ xs)) (length ps) ≡ some (length ps)
  unfolding controlled_index mem
  controlled_index-all [] x xs h = rw (h x (ground (arith, beq_refl x))) refl
  controlled_index-all (p ∷ ps) x xs h =
      let ih = controlled_index-all ps x xs (λ y m. h y (ground (arith, m))) in
      rw (h p (ground (arith, beq_refl p)), ih) refl

  -- The mirror during the last phase: what is placed, then the rest in any order.
  pub record Placing (ps ids : List String) (work : List String) : Type 0 where
    pub rest : List String
    pub split : work ≡ ps ++ rest
    pub same : (x : String) → mem x rest ≡ mem x ids
    pub once : Distinct rest

  -- The wanted id is there already.
  place_at-there :
      (ps vs : List String) (v id : String) (a : Arrays)
      → a.work ≡ ps ++ (v ∷ vs)
      → (v == id) ≡ true
      → (place_at base desired (length ps) id a).work ≡ a.work
  unfolding place_at
  place_at-there ps vs v id a e t = ground (arith, e, get_elem-append v ps vs, t)

  -- It is behind, at an index from which it is taken.
  place_at-behind :
      (ps vs : List String) (v id : String) (i : ℕ) (a : Arrays)
      → a.work ≡ ps ++ (v ∷ vs)
      → (v == id) ≡ false
      → mem id ps ≡ false
      → index_of id vs ≡ some i
      → (place_at base desired (length ps) id a).work ≡ ps ++ (id ∷ v ∷ delete_at i vs)
  unfolding place_at index_of move delete_at
  place_at-behind ps vs v id i a e f np p =
      let from = length ps + suc i in
      let found : index_of id a.work ≡ some from =
        ap (index_of id) e ∙ index_of-append id (suc i) ps (v ∷ vs) np (rw (f, p) refl) in
      let there : get_elem? a.work (length ps) ≡ some v =
        ap (λ xs. get_elem? xs (length ps)) e ∙ get_elem-append v ps vs in
      rw (place_at, there, f, found, move)
        (moved from (delete_at from a.work) (ground arith)
          (ap (delete_at from) e ∙ delete_at-append (suc i) ps (v ∷ vs)))
    where
      moved :
          (from : ℕ) (xs : List String)
          → ltb from (length ps) ≡ false
          → xs ≡ ps ++ (v ∷ delete_at i vs)
          → insert_at (if ltb from (length ps) then length ps - 1 else length ps) id xs
            ≡ ps ++ (id ∷ v ∷ delete_at i vs)
      moved from xs late q = rw (late, q) (insert_at-append id ps (v ∷ delete_at i vs))

  place_at-first :
      (ps ids rest : List String) (id : String) (a : Arrays)
      → mem id ps ≡ false
      → mem id ids ≡ false
      → a.work ≡ ps ++ rest
      → ((x : String) → mem x rest ≡ mem x (id ∷ ids))
      → Distinct rest
      → Placing (ps ++ (id ∷ [])) ids (place_at base desired (length ps) id a).work
  unfolding mem
  place_at-first ps ids [] id a np ni e s d = absurd (cc (s id, beq_refl id))
  place_at-first ps ids (v ∷ vs) id a np ni e s d = elim (beq-cases v id) [
    | inl (t, q) ↦ record {
      rest = vs;
      split =
          place_at-there ps vs v id a e t
          ∙ e
          ∙ ap (λ x. ps ++ (x ∷ vs)) q
          ∙ sym (append_assoc ps (id ∷ []) vs);
      same = λ x. elim (beq-cases v x) [
        | inl (c, w) ↦
            subst (λ z. mem z vs ≡ false) w d.0
            ∙ sym (subst (λ z. mem z ids ≡ false) (sym q ∙ w) ni)
        | inr (c, w) ↦ ground (arith, s x, c, subst (λ z. (z == x) ≡ false) q c)
      ];
      once = d.1;
    }
    | inr (f, q) ↦
        let (i, p, r) = index_of-discard id vs d.1 (ground (arith, s id, beq_refl id, f)) in
        record {
          rest = v ∷ discard id vs;
          split =
              place_at-behind ps vs v id i a e f np p
              ∙ ap (λ xs. ps ++ (id ∷ v ∷ xs)) r
              ∙ sym (append_assoc ps (id ∷ []) (v ∷ discard id vs));
          same = λ x. elim (beq-cases id x) [
            | inl (c, w) ↦ ground (
              arith,
              mem-discard x id vs,
              c,
              subst (λ z. mem z ids ≡ false) w ni,
              subst (λ z. (v == z) ≡ false) w f,
            )
            | inr (c, w) ↦ ground (arith, s x, mem-discard x id vs, c)
          ];
          once = (ground (arith, mem-discard v id vs, d.0), discard-Distinct id vs d.1);
        }
  ]

  place-Placing :
      (ps ids : List String) (id : String) (a : Arrays)
      → mem id ps ≡ false
      → mem id ids ≡ false
      → ((y : String) → mem y a.work ≡ true → mem y desired ≡ true)
      → Placing ps (id ∷ ids) a.work
      → Placing (ps ++ (id ∷ [])) ids (place base desired (length ps) id a).work
  unfolding place mem
  place-Placing ps ids id a np ni all h = go h.rest h.split h.same h.once
    where
      go :
          (rest : List String)
          → a.work ≡ ps ++ rest
          → ((x : String) → mem x rest ≡ mem x (id ∷ ids))
          → Distinct rest
          → Placing (ps ++ (id ∷ [])) ids (place base desired (length ps) id a).work
      go [] e s d = absurd (cc (s id, beq_refl id))
      go (v ∷ vs) e s d =
          let at : controlled_index base desired a.work (length ps) ≡ some (length ps) =
            ap (λ w. controlled_index base desired w (length ps)) e
            ∙ controlled_index-all ps v vs (λ y m. all y (ap (mem y) e ∙ m)) in
          rw (place, at) (place_at-first ps ids (v ∷ vs) id a np ni e s d)

  -- The elements of the mirror stay those of the desired list.
  Placing-mem :
      (ps ids work : List String)
      → Placing ps ids work
      → (x : String) → mem x work ≡ mem x (ps ++ ids)
  Placing-mem ps ids work h x =
      ap (mem x) h.split
      ∙ mem-append x ps h.rest
      ∙ ap (λ b. mem x ps || b) (h.same x)
      ∙ sym (mem-append x ps ids)

  pub reorder_phase-desired :
      (ps ids : List String) (a : Arrays)
      → desired ≡ ps ++ ids
      → Distinct desired
      → Placing ps ids a.work
      → (reorder_phase base desired (length ps) ids a).work ≡ desired
  unfolding reorder_phase
  reorder_phase-desired ps [] a e d h =
      h.split ∙ ap (λ xs. ps ++ xs) (none_left h.rest h.same) ∙ sym e
    where
      none_left : (xs : List String) → ((x : String) → mem x xs ≡ mem x []) → xs ≡ []
      none_left [] s = refl
      none_left (x ∷ xs) s = absurd (nobody x xs (s x))
  reorder_phase-desired ps (id ∷ ids) a e d h =
      let apart = Distinct-middle ps id ids (subst Distinct e d) in
      let placed =
        place-Placing ps ids id a apart.0 apart.1
          (λ y m. ap (mem y) e ∙ sym (Placing-mem ps (id ∷ ids) a.work h y) ∙ m) h in
      subst
        (λ n.
          (reorder_phase base desired n ids (place base desired (length ps) id a)).work ≡ desired)
        (longer ps id)
        (reorder_phase-desired (ps ++ (id ∷ [])) ids (place base desired (length ps) id a)
          (e ∙ sym (append_assoc ps (id ∷ []) ids)) d placed)
