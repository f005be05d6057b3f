-- ===== src/NativeTree/Diff/Baseline.antt =====
-- The entries of the classification: a changed node stands with its previous version.
use anvilkit_plugin_collab_y.Base.{
  ◌≡◌, refl, sym, ap, ◌∙◌, subst, ◌⊎◌, inl, inr, Option, none, some, [], ◌∷◌, String, ◌==◌, Keyed,
  string_eq, beq-cases, arith, Option-cases, ◌||◌, if-both,
}
use anvilkit_plugin_collab_y.Base.Dict.{Dict, keys, get, get-put, put-Distinct}
use anvilkit_plugin_collab_y.Base.IdSet.{Distinct}
use anvilkit_plugin_collab_y.Ir.{Own, Node, PageIr, node_id}
use anvilkit_plugin_collab_y.NativeTree.Diff.{
  nodes_by_id, kids_differ, content_changed, LocalDiff, classify, classify_all,
  diff_ir_nodes_for_local_save,
}

module _ {H : Type 0} ⦃eh : Keyed H⦄ (hash : Own → H) (hashes : Option (Dict String H)) where
  -- Under `k` the recorded previous version is that of `prev`, or nothing is recorded yet.
  abbrev Recorded : Dict String Node → String → LocalDiff → Type 0
  Recorded prev k d =
      (get k d.baseline ≡ get k prev) ⊎ ((get k d.changed ≡ none) × (get k d.baseline ≡ none))

  classify-Recorded :
      (prev : Dict String Node) (d : LocalDiff) (id k : String) (n : Node)
      → Recorded prev k d
      → Recorded prev k (classify hash hashes prev d id n)
  unfolding classify
  classify-Recorded prev d id k n h = elim (Option-cases (get id prev)) [
    | inl g ↦ elim (beq-cases id k) [
      | inl (t, e) ↦
          rw (g, classify)
            (inl (elim h [ inl r ↦ r | inr (c, b) ↦ b ∙ sym (subst (λ x. get x prev ≡ none) e g) ]))
      | inr (f, e) ↦
          rw (g, classify)
            (elim h [ inl r ↦ inl r | inr (c, b) ↦ inr (rw (get-put k id n d.changed, f) c, b) ])
    ]
    | inr (p, g) ↦
        rw (g, classify)
          (if-both (Recorded prev k) (kids_differ n p || content_changed hash hashes n p) _ _
            (λ t. elim (beq-cases id k) [
              | inl (t, e) ↦
                  inl (rw (get-put k id p d.baseline, t) (sym g ∙ ap (λ x. get x prev) e))
              | inr (f, e) ↦ elim h [
                | inl r ↦ inl (rw (get-put k id p d.baseline, f) r)
                | inr (c, b) ↦
                    inr (rw (get-put k id n d.changed, f) c, rw (get-put k id p d.baseline, f) b)
              ]
            ])
            (λ f. h))
  ]

  classify_all-Recorded :
      (prev : Dict String Node) (d : LocalDiff) (es : Dict String Node) (k : String)
      → Recorded prev k d
      → Recorded prev k (classify_all hash hashes prev d es)
  unfolding classify_all
  classify_all-Recorded prev d [] k h = h
  classify_all-Recorded prev d ((id, n) ∷ es) k h =
      classify_all-Recorded prev (classify hash hashes prev d id n) es k
        (classify-Recorded prev d id k n h)

  abbrev ChangedOnce : LocalDiff → Type 0
  ChangedOnce d = Distinct (keys d.changed)

  classify-ChangedOnce :
      (prev : Dict String Node) (d : LocalDiff) (id : String) (n : Node)
      → ChangedOnce d
      → ChangedOnce (classify hash hashes prev d id n)
  unfolding classify
  classify-ChangedOnce prev d id n h = ground (arith, put-Distinct id n d.changed h)

  classify_all-ChangedOnce :
      (prev : Dict String Node) (d : LocalDiff) (es : Dict String Node)
      → ChangedOnce d
      → ChangedOnce (classify_all hash hashes prev d es)
  unfolding classify_all
  classify_all-ChangedOnce prev d [] h = h
  classify_all-ChangedOnce prev d ((id, n) ∷ es) h =
      classify_all-ChangedOnce prev (classify hash hashes prev d id n) es
        (classify-ChangedOnce prev d id n h)

  pub diff-ChangedOnce :
      (prev next : PageIr)
      → Distinct (keys (diff_ir_nodes_for_local_save hash hashes (some prev) next).changed)
  unfolding diff_ir_nodes_for_local_save
  diff-ChangedOnce prev next =
      if-both ChangedOnce (node_id prev.root == node_id next.root) _ _
        (λ t. classify_all-ChangedOnce (nodes_by_id prev.root) _ (nodes_by_id next.root) tt)
        (λ f. tt)

  -- A node that is listed as changed is listed with the version that the previous document has.
  pub diff-baseline :
      (prev next : PageIr) (k : String)
      → let d = diff_ir_nodes_for_local_save hash hashes (some prev) next in
        node_id prev.root ≡ node_id next.root
        → (n : Node) → get k d.changed ≡ some n
        → get k d.baseline ≡ get k (nodes_by_id prev.root)
  unfolding diff_ir_nodes_for_local_save get
  diff-baseline prev next k e n h =
      let same = (string_eq.same_key_iff (node_id prev.root) (node_id next.root)).1 e in
      rw same
        (elim (classify_all-Recorded (nodes_by_id prev.root) _ (nodes_by_id next.root) k
          (inr (refl, refl))) [ inl r ↦ r | inr (c, b) ↦ absurd (cc (c, rw same at h)) ])
