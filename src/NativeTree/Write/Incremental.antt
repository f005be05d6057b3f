-- ===== src/NativeTree/Write/Incremental.antt =====
-- `applyChangedNodesToNativeTree` against `applyIRToNativeTree`.
use anvilkit_plugin_collab_y.Base.{
  ℕ, ◌≡◌, refl, sym, ap, ◌∙◌, subst, inl, inr, false, Option, none, some, String, Keyed, string_eq,
  if◌then◌else◌, arith, Bool-cases, In,
}
use anvilkit_plugin_collab_y.Base.Dict.{Dict, keys, get, get-del_all}
use anvilkit_plugin_collab_y.Base.IdSet.{mem, Distinct}
use anvilkit_plugin_collab_y.Ir.{Json, Own, Node, PageIr, own, node_id, walk}
use anvilkit_plugin_collab_y.NativeTree.Diff.{
  nodes_by_id, kids_differ, content_changed, altered, diff_ir_nodes_for_local_save,
}
use anvilkit_plugin_collab_y.NativeTree.Diff.Laws.{
  UniqueIds, picked, diff_by_id, get-nodes_by_id-In, kids_differ-eq,
}
use anvilkit_plugin_collab_y.NativeTree.Diff.Baseline.{diff-ChangedOnce, diff-baseline}
use anvilkit_plugin_collab_y.NativeTree.Store.{NodeMap, NativeTree}
use anvilkit_plugin_collab_y.NativeTree.Write.{
  write_nodes, apply_ir_to_native_tree, apply_changed_nodes_to_native_tree,
}
use anvilkit_plugin_collab_y.NativeTree.Write.Lookup.{written, get-write_nodes}
use anvilkit_plugin_collab_y.NativeTree.Write.Skip.{Carries, write_node_same}
use anvilkit_plugin_collab_y.NativeTree.Write.Full.{get-full}

-- A node that neither moved nor changed, as it stands in the tree.
unaltered :
    (units : Json → ℕ) (cur : Option NodeMap) (n p : Node)
    → own n ≡ own p
    → kids_differ n p ≡ false
    → Distinct (keys (own n).props)
    → Carries cur (own n)
    → written units cur (some p) (some n) ≡ cur
unaltered units none n p e f d c = absurd c
unaltered units (some m) n p e f d c =
    ap some (write_node_same units m n p e (kids_differ-eq n p f) d c)

module _ {H : Type 0} ⦃eh : Keyed H⦄ (hash : Own → H) (hashes : Option (Dict String H)) where
  -- What the incremental save leaves under an id, by the two versions of the node.
  merge :
      (units : Json → ℕ) (cur : Option NodeMap) (b p n : Option Node)
      → ((m : Node) → picked hash hashes p none n ≡ some m → b ≡ p)
      → ((m q : Node)
          → n ≡ some m
          → p ≡ some q
          → altered hash hashes p m ≡ false
          → written units cur p n ≡ cur)
      → written units cur b (picked hash hashes p none n) ≡ written units cur p n
  unfolding altered
  merge units cur b p none hb hs = refl
  merge units cur b none (some m) hb hs = ap (λ x. written units cur x (some m)) (hb m refl)
  merge units cur b (some q) (some m) hb hs = elim (Bool-cases (altered hash hashes (some q) m)) [
    | inl t ↦ rw t (ap (λ x. written units cur x (some m)) (hb m (rw t refl)))
    | inr f ↦ rw f (sym (hs m q refl refl f))
  ]

  -- A node that the comparison of contents passes over is the same in both documents.
  abbrev pub Exact : PageIr → PageIr → Type 0
  Exact prev next =
      (n p : Node)
      → In n (walk next.root)
      → In p (walk prev.root)
      → node_id n ≡ node_id p
      → content_changed hash hashes n p ≡ false
      → own n ≡ own p

  skipped :
      (units : Json → ℕ) (t : NativeTree) (prev next : PageIr) (k : String) (m q : Node)
      → ((n : Node) → In n (walk next.root) → Distinct (keys (own n).props))
      → Exact prev next
      → ((p : Node) → In p (walk prev.root) → Carries (get (node_id p) t.nodes) (own p))
      → get k (nodes_by_id next.root) ≡ some m
      → get k (nodes_by_id prev.root) ≡ some q
      → altered hash hashes (some q) m ≡ false
      → written units (get k t.nodes) (some q) (some m) ≡ get k t.nodes
  unfolding altered
  skipped units t prev next k m q ps ex cs hm hq f =
      let a = get-nodes_by_id-In next.root k m hm in
      let b = get-nodes_by_id-In prev.root k q hq in
      let same = ex m q a.0 b.0 (a.1 ∙ sym b.1) (ground (arith, f)) in
      let carried = subst (λ x. Carries (get x t.nodes) (own q)) b.1 (cs q b.0) in
      unaltered units (get k t.nodes) m q same (ground (arith, f)) (ps m a.0)
        (subst (Carries (get k t.nodes)) (sym same) carried)

  same_under :
      (units : Json → ℕ) (t : NativeTree) (prev next : PageIr) (k : String)
      → node_id prev.root ≡ node_id next.root
      → UniqueIds next.root
      → ((n : Node) → In n (walk next.root) → Distinct (keys (own n).props))
      → Exact prev next
      → ((p : Node) → In p (walk prev.root) → Carries (get (node_id p) t.nodes) (own p))
      → let d = diff_ir_nodes_for_local_save hash hashes (some prev) next in
        get k
          (apply_changed_nodes_to_native_tree units t next
            (some prev)
            d.changed
            d.baseline
            d.removed).nodes
        ≡ get k (apply_ir_to_native_tree units t next (some prev)).nodes
  unfolding apply_changed_nodes_to_native_tree
  same_under units t prev next k e u ps ex cs =
      let d = diff_ir_nodes_for_local_save hash hashes (some prev) next in
      let p = get k (nodes_by_id prev.root) in
      let n = get k (nodes_by_id next.root) in
      let r = diff_by_id hash hashes prev next k e in
      let merged : written units (get k t.nodes) (get k d.baseline) (picked hash hashes p none n)
          ≡ written units (get k t.nodes) p n =
        merge units (get k t.nodes) (get k d.baseline) p n
          (λ m h. diff-baseline hash hashes prev next k e m (r.1 ∙ h))
          (λ m q hn hp f.
            rw (hn, hp) (skipped units t prev next k m q ps ex cs hn hp (rw hp at f))) in
      get-del_all k d.removed (write_nodes units d.baseline d.changed t.nodes)
      ∙ ap (λ x. if mem k d.removed then none else x)
          (get-write_nodes units d.baseline d.changed t.nodes k
              (diff-ChangedOnce hash hashes prev next)
            ∙ ap (written units (get k t.nodes) (get k d.baseline)) r.1
            ∙ merged)
      ∙ ap (λ b. if b then none else written units (get k t.nodes) p n) r.2
      ∙ sym (get-full units t (some prev) next k u)

  -- Writing the nodes that the classification of a save lists leaves the same tree as writing the
  -- whole document (version, root id, assets, metadata and the map under every id), if the root id
  -- stays, the next document repeats no id and none of its nodes a prop name, the comparison of
  -- contents misses no change, and the tree still carries every node of the previous document.
  pub apply_changed-apply_ir :
      (units : Json → ℕ) (t : NativeTree) (prev next : PageIr) (k : String)
      → node_id prev.root ≡ node_id next.root
      → UniqueIds next.root
      → ((n : Node) → In n (walk next.root) → Distinct (keys (own n).props))
      → Exact prev next
      → ((p : Node) → In p (walk prev.root) → Carries (get (node_id p) t.nodes) (own p))
      → let d = diff_ir_nodes_for_local_save hash hashes (some prev) next in
        let a =
          apply_changed_nodes_to_native_tree units t next
            (some prev)
            d.changed
            d.baseline
            d.removed in
        let b = apply_ir_to_native_tree units t next (some prev) in
        (a.version ≡ b.version)
        × (a.root_id ≡ b.root_id)
        × (a.assets ≡ b.assets)
        × (a.metadata ≡ b.metadata)
        × (get k a.nodes ≡ get k b.nodes)
  unfolding apply_changed_nodes_to_native_tree apply_ir_to_native_tree
  apply_changed-apply_ir units t prev next k e u ps ex cs =
      (refl, refl, refl, refl, same_under units t prev next k e u ps ex cs)
