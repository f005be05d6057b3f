-- ===== src/Snapshots/Readable.antt =====
-- The delta that a save writes, against the checks of `decodePayload`.
use anvilkit_plugin_collab_y.Base.{
  ◌≡◌, refl, sym, ap, ◌∙◌, Bool, true, false, not, Option, some, List, [], ◌∷◌, map, every, String,
  ◌==◌, Keyed, string_eq, beq_refl, arith, In, inl, inr, Option-cases,
}
use anvilkit_plugin_collab_y.Base.Dict.{Dict, values, get, has}
use anvilkit_plugin_collab_y.Base.IdSet.{mem}
use anvilkit_plugin_collab_y.Ir.{Json, Own, Node, PageIr, node_id, walk}
use anvilkit_plugin_collab_y.Ir.Access.{is_object}
use anvilkit_plugin_collab_y.NativeTree.Diff.{nodes_by_id, diff_ir_nodes_for_local_save}
use anvilkit_plugin_collab_y.NativeTree.Diff.Laws.{diff_by_id, In-changed, get-nodes_by_id-In}
use anvilkit_plugin_collab_y.PayloadChain.{StoredNode, delta, to_stored_node, build_delta_payload}
use anvilkit_plugin_collab_y.PayloadChain.Records.{
  is_array, is_readable, decode_payload-encode_delta,
}
use anvilkit_plugin_collab_y.Snapshots.Save.{reads_back}

-- No id of the document is empty.
abbrev pub Filled : PageIr → Type 0
Filled ir = (n : Node) → In n (walk ir.root) → (node_id n == "") ≡ false

every-mem :
    (p : String → Bool) (xs : List String)
    → ((x : String) → mem x xs ≡ true → p x ≡ true)
    → every p xs ≡ true
unfolding mem
every-mem p [] h = refl
every-mem p (x ∷ xs) h =
    ground
      (arith, h x (ground (arith, beq_refl x)), every-mem p xs (λ y m. h y (ground (arith, m))))

every-stored :
    (d : Dict String Node)
    → ((k : String) (n : Node) → In (k, n) d → (node_id n == "") ≡ false)
    → every (λ (s : StoredNode). not (s.content.id == "")) (map to_stored_node (values d)) ≡ true
unfolding to_stored_node
every-stored [] h = refl
every-stored ((k, n) ∷ d) h =
    ground (arith, h k n (inl refl), every-stored d (λ j m i. h j m (inr i)))

Filled-id :
    (ir : PageIr) (k : String) → Filled ir → has k (nodes_by_id ir.root) ≡ true → (k == "") ≡ false
Filled-id ir k f h = elim (Option-cases (get k (nodes_by_id ir.root))) [
  | inl e ↦ absurd (cc (h, e))
  | inr (n, e) ↦ let r = get-nodes_by_id-In ir.root k n e in ap (λ x. x == "") (sym r.1) ∙ f n r.0
]

reads_back-delta :
    (base : String) (changed : List StoredNode) (removed : List String) (assets metadata : Json)
    → is_readable base changed removed assets metadata ≡ true
    → reads_back (delta base changed removed assets metadata) ≡ true
unfolding reads_back
reads_back-delta base changed removed assets metadata h =
    rw (reads_back, (decode_payload-encode_delta base changed removed assets metadata).1 h) refl

module _ {H : Type 0} ⦃eh : Keyed H⦄ (hash : Own → H) (hashes : Option (Dict String H))
    (prev next : PageIr) (base : String) (q : node_id prev.root ≡ node_id next.root) where
  Filled-removed :
      Filled prev
      → every
          (λ id. not (id == ""))
          (diff_ir_nodes_for_local_save hash hashes (some prev) next).removed
        ≡ true
  Filled-removed was =
      every-mem (λ id. not (id == ""))
        (diff_ir_nodes_for_local_save hash hashes (some prev) next).removed
        (λ k h.
          let gone : has k (nodes_by_id prev.root) ≡ true =
            ground (arith, (diff_by_id hash hashes prev next k q).2, h) in
          ground (arith, Filled-id prev k was gone))

  -- A delta between two documents without empty ids, on a base that has an id.
  pub diff-reads_back :
      (base == "") ≡ false
      → Filled prev
      → Filled next
      → is_array (some next.assets) ≡ true
      → is_object next.metadata ≡ true
      → let d = diff_ir_nodes_for_local_save hash hashes (some prev) next in
        reads_back (build_delta_payload base next d.changed d.removed) ≡ true
  unfolding is_readable build_delta_payload
  diff-reads_back b was fine a m =
      let d = diff_ir_nodes_for_local_save hash hashes (some prev) next in
      let changed =
        every-stored d.changed (λ k n i. fine n (In-changed hash hashes prev next k n i).0) in
      reads_back-delta base (map to_stored_node (values d.changed)) d.removed next.assets
        next.metadata (ground (arith, b, a, m, changed, Filled-removed was))
