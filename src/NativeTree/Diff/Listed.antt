-- ===== src/NativeTree/Diff/Listed.antt =====
-- `diffIRNodesForLocalSave` against the plain difference of two documents.
use anvilkit_plugin_collab_y.Base.{
  ◌≡◌, refl, sym, ◌∙◌, ◌↔◌, inl, inr, subst, false, not, ◌&&◌, Option, none, some, String, Keyed,
  string_eq, beq_refl, arith, Bool-cases, Option-cases, In,
}
use anvilkit_plugin_collab_y.Base.Dict.{Dict, get, has}
use anvilkit_plugin_collab_y.Base.IdSet.{mem}
use anvilkit_plugin_collab_y.Ir.{
  Own, Node, PageIr, own, node_id, walk, option_json_eq, option_string_eq, props_eq, ids_eq,
}
use anvilkit_plugin_collab_y.NativeTree.Diff.{
  nodes_by_id, child_ids, kids_differ, own_differs, cached_hash, content_changed, altered,
  diff_ir_nodes_for_local_save,
}
use anvilkit_plugin_collab_y.NativeTree.Diff.Laws.{
  diff_by_id, picked, own_differs-eq, kids_differ-eq, get-nodes_by_id-In,
}

-- A node with the same fields and the same child ids.
abbrev pub Same : Node → Node → Type 0
Same n p = (own n ≡ own p) × (child_ids n ≡ child_ids p)

-- The node stood there before, as it is.
abbrev pub Stood : Option Node → Node → Type 0
Stood before n = (p : Node) × (before ≡ some p) × Same n p

own_differs_self : (a b : Own) → a ≡ b → own_differs a b ≡ false
unfolding own_differs
own_differs_self a b e =
    subst (λ x. own_differs a x ≡ false) e
      (ground (
        arith,
        beq_refl a.kind,
        beq_refl a.slot,
        beq_refl a.slot_kind,
        beq_refl a.props,
        beq_refl a.assets,
        beq_refl a.meta,
      ))

kids_differ_self : (n p : Node) → child_ids n ≡ child_ids p → kids_differ n p ≡ false
unfolding kids_differ
kids_differ_self n p e = ground (arith, ids_eq.same_key_iff (child_ids n) (child_ids p), e)

module _ {H : Type 0} ⦃eh : Keyed H⦄ (hash : Own → H) (hashes : Option (Dict String H)) where
  -- A cached hash tells the content of the previous node from any other that the next document
  -- has under its id.
  abbrev pub Tells : PageIr → PageIr → Type 0
  Tells prev next =
      (n p : Node) (h : H)
      → In n (walk next.root)
      → In p (walk prev.root)
      → node_id n ≡ node_id p
      → cached_hash hash hashes (node_id n) ≡ some h
      → (hash (own n) ≡ h) ↔ (own n ≡ own p)

  content_changed_iff :
      (n p : Node)
      → node_id n ≡ node_id p
      → ((h : H)
          → cached_hash hash hashes (node_id n) ≡ some h
          → (hash (own n) ≡ h) ↔ (own n ≡ own p))
      → (content_changed hash hashes n p ≡ false) ↔ (own n ≡ own p)
  unfolding content_changed
  content_changed_iff n p i t = elim (Option-cases (cached_hash hash hashes (node_id n))) [
    | inl e ↦
        rw (e, content_changed)
          (λ f. own_differs-eq (own n) (own p) i f, λ q. own_differs_self (own n) (own p) q)
    | inr (h, e) ↦
        let k = eh.same_key_iff (hash (own n)) h in
        rw (e, content_changed)
          (λ f. (t h e).0 (k.0 (ground (arith, f))), λ q. ground (arith, k.1 ((t h e).1 q)))
  ]

  altered_iff :
      (n p : Node)
      → node_id n ≡ node_id p
      → ((h : H)
          → cached_hash hash hashes (node_id n) ≡ some h
          → (hash (own n) ≡ h) ↔ (own n ≡ own p))
      → (altered hash hashes (some p) n ≡ false) ↔ Same n p
  unfolding altered
  altered_iff n p i t =
      let c = content_changed_iff n p i t in
      (
        λ f. (c.0 (ground (arith, f)), kids_differ-eq n p (ground (arith, f))),
        λ s. ground (arith, c.1 s.0, kids_differ_self n p s.1),
      )

  picked_iff :
      (before after : Option Node) (n : Node)
      → ((p m : Node)
          → before ≡ some p
          → after ≡ some m
          → (altered hash hashes (some p) m ≡ false) ↔ Same m p)
      → (picked hash hashes before none after ≡ some n) ↔ ((after ≡ some n) × ¬ Stood before n)
  unfolding altered
  picked_iff before none n t = (λ h. absurd (cc (h)), λ h. absurd (cc (h.0)))
  picked_iff none (some m) n t = (λ h. (h, λ s. cc (s.1)), λ h. h.0)
  picked_iff (some p) (some m) n t = elim (Bool-cases (altered hash hashes (some p) m)) [
    | inl a ↦ rw a (
      λ h. (
        h,
        λ s. ground (
          arith,
          a,
          (t p m refl refl).1
              (subst (λ x. Same x p) (some_inj (sym h)) (subst (Same n) (some_inj (sym s.1)) s.2)),
        ),
      ),
      λ h. h.0,
    )
    | inr a ↦ rw a (
      λ h. absurd (cc (h)),
      λ h. absurd (h.1 (p, refl, subst (λ x. Same x p) (some_inj h.0) ((t p m refl refl).0 a))),
    )
  ]
    where
      some_inj : {x y : Node} → some x ≡ some y → x ≡ y
      some_inj e = cc

  pub altered-Tells :
      (prev next : PageIr) (k : String) (n p : Node)
      → Tells prev next
      → get k (nodes_by_id prev.root) ≡ some p
      → get k (nodes_by_id next.root) ≡ some n
      → (altered hash hashes (some p) n ≡ false) ↔ Same n p
  altered-Tells prev next k n p tells before after =
      let old = get-nodes_by_id-In prev.root k p before in
      let new = get-nodes_by_id-In next.root k n after in
      let i = new.1 ∙ sym old.1 in altered_iff n p i (λ h c. tells n p h new.0 old.0 i c)

  -- When the root id stays and a cached hash tells the previous content of a node from the next
  -- one, a save is not structural; it lists as changed exactly the nodes of the next document
  -- that did not stand in the previous one with the same fields and the same child ids, and as
  -- removed exactly the ids that only the previous document has.
  pub changed_iff :
      (prev next : PageIr) (k : String) (n : Node)
      → node_id prev.root ≡ node_id next.root
      → Tells prev next
      → let d = diff_ir_nodes_for_local_save hash hashes (some prev) next in
        (d.structural ≡ false)
        × ((get k d.changed ≡ some n) ↔ (
            (get k (nodes_by_id next.root) ≡ some n) × ¬ Stood (get k (nodes_by_id prev.root)) n))
        × (mem k d.removed ≡ (has k (nodes_by_id prev.root) && not (has k (nodes_by_id next.root))))
  changed_iff prev next k n e tells =
      let d = diff_by_id hash hashes prev next k e in
      let r =
        picked_iff (get k (nodes_by_id prev.root)) (get k (nodes_by_id next.root)) n
          (λ p m b a. altered-Tells prev next k m p tells b a) in
      (d.0, (λ h. r.0 (sym d.1 ∙ h), λ h. d.1 ∙ r.1 h), d.2)
