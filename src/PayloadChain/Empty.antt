-- ===== src/PayloadChain/Empty.antt =====
-- An explicit empty `children` array against a delta.
use anvilkit_plugin_collab_y.Base.{
  ◌≡◌, false, none, some, List, [], String, string_eq, Keyed, beq_refl, arith, map,
}
use anvilkit_plugin_collab_y.Base.Dict.{values, get, put, put_all, del_all}
use anvilkit_plugin_collab_y.Base.IdSet.{mem}
use anvilkit_plugin_collab_y.Ir.{
  Json, Own, leaf, branch, end, PageIr, walk, visit, option_json_eq, option_string_eq, props_eq,
  ids_eq, trees,
}
use anvilkit_plugin_collab_y.NativeTree.Diff.{
  nodes_by_id, own_differs, content_changed, kids_differ, classify, classify_all, missing,
  diff_present, diff_ir_nodes_for_local_save,
}
use anvilkit_plugin_collab_y.PayloadChain.{
  ok, to_stored_node, from_stored_node, map_present, build_children, build, flatten_tree, overlay,
  apply_stored_delta,
}

own_differs_self : (o : Own) → own_differs o o ≡ false
unfolding own_differs
own_differs_self o = rw (
  beq_refl o.kind,
  beq_refl o.slot,
  beq_refl o.slot_kind,
  beq_refl o.props,
  beq_refl o.assets,
  beq_refl o.meta,
)

module _ {H : Type 0} ⦃eh : Keyed H⦄ (hash : Own → H) (o : Own) (a b a' b' : Json) where
  abbrev pub before : PageIr
  before = record { version = "1"; root = leaf o; assets = a; metadata = b }

  abbrev pub saved : PageIr
  saved = record { version = "1"; root = branch o end; assets = a'; metadata = b' }

  -- Nothing is listed as changed or removed.
  diff_empty :
      let d = diff_ir_nodes_for_local_save hash none (some before) saved in
      (d.changed ≡ []) × (d.removed ≡ [])
  unfolding diff_ir_nodes_for_local_save diff_present nodes_by_id walk put_all put classify_all
      classify content_changed kids_differ trees missing get
  diff_empty = (
    ground (arith, beq_refl o.id, own_differs_self o, beq_refl {K = List String} []),
    ground (arith, beq_refl o.id, own_differs_self o, beq_refl {K = List String} []),
  )

  replay_empty : apply_stored_delta before [] [] a' b' ≡ ok (record saved { root = leaf o })
  unfolding apply_stored_delta overlay flatten_tree visit put_all put del_all build build_children
      get map_present from_stored_node to_stored_node mem
  replay_empty = simp beq_refl

  -- A save whose only change to the node tree is that a childless root gains an empty `children`
  -- array is stored as a delta with no changed node, and loads without the array: the key's
  -- presence does not survive, although a stored node records it.
  pub empty_children_lost :
      let d = diff_ir_nodes_for_local_save hash none (some before) saved in
      (d.changed ≡ [])
      × (apply_stored_delta before (map to_stored_node (values d.changed)) d.removed a' b'
          ≡ ok (record saved { root = leaf o }))
  empty_children_lost = (diff_empty.0, rw (diff_empty.0, diff_empty.1) replay_empty)
