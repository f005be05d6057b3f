-- ===== src/NativeTree/Events/Tests.antt =====
-- A batch that adds a node under a parent and edits another one.
use anvilkit_plugin_collab_y.Base.{◌≡◌, not, ◌&&◌, List, [], ◌∷◌, string_eq, any}
use anvilkit_plugin_collab_y.Base.IdSet.{mem}
use anvilkit_plugin_collab_y.LiveIr.{removed_of}
use anvilkit_plugin_collab_y.NativeTree.Events.{
  TreeEvent, node_key, name, index, added, root_event, deep_event, derive_changed_node_ids,
}
use anvilkit_plugin_collab_y.NativeTree.Events.Described.{
  touches, adds, removes, relists, changes_document, added_of, parents_of,
  derive_changed_node_ids-described,
}

abbrev batch : List TreeEvent
batch =
    root_event ((node_key "n", added) ∷ [])
    ∷ deep_event (node_key "p") (name "childIds" ∷ [])
    ∷ deep_event (node_key "t") (name "props" ∷ index 0 ∷ [])
    ∷ []

derive_changed_node_ids-described_example :
    let d = derive_changed_node_ids batch in
    let whole = any changes_document batch in
    (mem "p" d.ids ≡ any (touches "p") batch)
    × (d.structural ≡ whole)
    × (mem "p" (added_of d.relink) ≡ (any (adds "p") batch && not whole))
    × (mem "p" (removed_of d.relink) ≡ (any (removes "p") batch && not whole))
    × (mem "p" (parents_of d.relink) ≡ (any (relists "p") batch && not whole))
derive_changed_node_ids-described_example = derive_changed_node_ids-described "p" batch
