-- ===== src/NativeTree/Write/Deleted.antt =====
-- A save of a document of which a peer has deleted a node, before the document has taken that
-- over.
use anvilkit_plugin_collab_y.Base.{
  ℕ, ◌≡◌, refl, ap, ◌∙◌, subst, Option, none, some, [], String, Keyed, string_eq, arith,
}
use anvilkit_plugin_collab_y.Base.Dict.{Dict, keys, get, get-del_all}
use anvilkit_plugin_collab_y.Base.IdSet.{Distinct}
use anvilkit_plugin_collab_y.Ir.{Json, Own, Node, PageIr, own, node_id}
use anvilkit_plugin_collab_y.NativeTree.Diff.{nodes_by_id, child_ids, diff_ir_nodes_for_local_save}
use anvilkit_plugin_collab_y.NativeTree.Diff.Laws.{UniqueIds, picked, diff_by_id}
use anvilkit_plugin_collab_y.NativeTree.Diff.Listed.{Same, Tells, altered-Tells}
use anvilkit_plugin_collab_y.NativeTree.Diff.Baseline.{diff-ChangedOnce}
use anvilkit_plugin_collab_y.NativeTree.Store.{NodeMap, NativeTree, empty_node_map}
use anvilkit_plugin_collab_y.NativeTree.Write.{
  write_node, write_nodes, reconcile_child_ids, reconcile_props, apply_ir_to_native_tree,
  apply_changed_nodes_to_native_tree,
}
use anvilkit_plugin_collab_y.NativeTree.Write.Full.{get-full}
use anvilkit_plugin_collab_y.NativeTree.Write.Lookup.{get-write_nodes}
use anvilkit_plugin_collab_y.NativeTree.Write.Skip.{reconcile_props_same, same_list_refl}

-- The map that a node gets which is not there and did not change: no props and no children.
write_node-shell :
    (units : Json → ℕ) (n p : Node)
    → Same n p
    → Distinct (keys (own n).props)
    → ((write_node units empty_node_map n (some p)).props ≡ some [])
      × ((write_node units empty_node_map n (some p)).child_ids ≡ some [])
unfolding write_node reconcile_child_ids
write_node-shell units n p s d = (
  subst (λ (o : Own). some (reconcile_props units [] (own n).props (some o.props)) ≡ some []) s.0
      (ap some (reconcile_props_same units [] (own n).props d)),
  subst (λ ids. some (reconcile_child_ids [] (child_ids n) ids) ≡ some []) s.1
      (ground (arith, same_list_refl (child_ids n))),
)

module _ {H : Type 0} ⦃eh : Keyed H⦄ (hash : Own → H) (hashes : Option (Dict String H))
    (units : Json → ℕ) (t : NativeTree) (prev next : PageIr) (k : String) (n p : Node)
    (root_stays : node_id prev.root ≡ node_id next.root) (tells : Tells hash hashes prev next)
    (gone : get k t.nodes ≡ none) (before : get k (nodes_by_id prev.root) ≡ some p)
    (after : get k (nodes_by_id next.root) ≡ some n) (same : Same n p) where
  kept_out :
      let d = diff_ir_nodes_for_local_save hash hashes (some prev) next in
      get k
        (apply_changed_nodes_to_native_tree units t next
          (some prev)
          d.changed
          d.baseline
          d.removed).nodes
      ≡ none
  unfolding apply_changed_nodes_to_native_tree
  kept_out =
      let d = diff_ir_nodes_for_local_save hash hashes (some prev) next in
      let r = diff_by_id hash hashes prev next k root_stays in
      let passed : picked hash hashes (get k (nodes_by_id prev.root)) none
            (get k (nodes_by_id next.root))
          ≡ none =
        rw (before, after, (altered-Tells hash hashes prev next k n p tells before after).1 same)
          refl in
      ground (
        arith,
        get-del_all k d.removed (write_nodes units d.baseline d.changed t.nodes),
        get-write_nodes units d.baseline d.changed t.nodes k
            (diff-ChangedOnce hash hashes prev next),
        r.1,
        passed,
        gone,
      )

  -- When the map of a node is gone from the tree, and the node has the same fields and the same
  -- child ids in a save as in the previous document, the full save puts a map with no props and no
  -- children in its place, whatever the node has, while the incremental save leaves it deleted.
  -- The root id stays, the next document has unique ids, each prop name of the node stands once,
  -- and a cached hash tells the previous content of a node from the next one.
  pub deleted-apply_ir :
      UniqueIds next.root
      → Distinct (keys (own n).props)
      → let d = diff_ir_nodes_for_local_save hash hashes (some prev) next in
        (get k
            (apply_changed_nodes_to_native_tree units t next
              (some prev)
              d.changed
              d.baseline
              d.removed).nodes
          ≡ none)
        × ((m : NodeMap) × (get k (apply_ir_to_native_tree units t next (some prev)).nodes ≡ some m)
            × (m.props ≡ some [])
            × (m.child_ids ≡ some []))
  deleted-apply_ir u d =
      let s = write_node-shell units n p same d in
      (
        kept_out,
        (
          write_node units empty_node_map n (some p),
          get-full units t (some prev) next k u ∙ rw (gone, before, after) refl,
          s.0,
          s.1,
        ),
      )
