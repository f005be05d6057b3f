-- ===== src/LiveIr/Tests.antt =====
-- A cache of a page of one node, and the writes to it.
use anvilkit_plugin_collab_y.Base.{
  refl, ◌≡◌, ◌↔◌, false, not, ◌&&◌, inl, inr, none, some, [], String, string_eq,
}
use anvilkit_plugin_collab_y.Ir.{arr, nil, obj, stop, Own, leaf, PageIr, walk}
use anvilkit_plugin_collab_y.NativeTree.Diff.{nodes_by_id, diff_ir_nodes_for_local_save}
use anvilkit_plugin_collab_y.LiveIr.{LiveIr, create_live_ir, seed_from_ir, set_local_changed}
use anvilkit_plugin_collab_y.LiveIr.Local.{
  Mirrors, NoCollision, seed_from_ir-Mirrors, set_local_changed-Mirrors,
}
use anvilkit_plugin_collab_y.LiveIr.Materialize.{materialize}
use anvilkit_plugin_collab_y.LiveIr.Materialize.Linked.{without_empty, materialize-Mirrors}
use anvilkit_plugin_collab_y.Base.IdSet.{mem}
use anvilkit_plugin_collab_y.Base.Dict.{get, has}
use anvilkit_plugin_collab_y.LiveIr.Hashes.{cached-Tells}
use anvilkit_plugin_collab_y.NativeTree.Diff.Listed.{Stood, changed_iff}

abbrev root_of : String → Own
root_of kind = record {
  id = "r";
  kind = kind;
  slot = none;
  slot_kind = none;
  props = [];
  assets = none;
  meta = none;
}

abbrev page : String → PageIr
page kind = record {
  version = "1";
  root = leaf (root_of kind);
  assets = arr nil;
  metadata = obj stop;
}

abbrev by_kind : Own → String
by_kind o = o.kind

abbrev boxed : LiveIr
boxed = seed_from_ir by_kind create_live_ir (page "Box")

boxes_apart : NoCollision by_kind (page "Box") (page "Card")
unfolding walk
boxes_apart n p (inl e) (inl f) q h = absurd (cc)
boxes_apart n p (inr e) hp q h = absurd e
boxes_apart n p (inl e) (inr f) q h = absurd f

set_local_changed-Mirrors_example :
    let d =
      diff_ir_nodes_for_local_save by_kind (some boxed.hashes) (some (page "Box")) (page "Card") in
    Mirrors by_kind
      (set_local_changed by_kind boxed (page "Card") d.changed d.removed)
      (page "Card")
set_local_changed-Mirrors_example =
    set_local_changed-Mirrors by_kind boxed (page "Box") (page "Card")
      (seed_from_ir-Mirrors by_kind create_live_ir (page "Box")) refl boxes_apart

-- After an incremental save of the other page.
materialize-Mirrors_example :
    let d =
      diff_ir_nodes_for_local_save by_kind (some boxed.hashes) (some (page "Box")) (page "Card") in
    materialize (set_local_changed by_kind boxed (page "Card") d.changed d.removed)
    ≡ some (page "Card")
unfolding walk mem without_empty
materialize-Mirrors_example =
    let d =
      diff_ir_nodes_for_local_save by_kind (some boxed.hashes) (some (page "Box")) (page "Card") in
    materialize-Mirrors by_kind (set_local_changed by_kind boxed (page "Card") d.changed d.removed)
      (page "Card")
      (set_local_changed-Mirrors by_kind boxed (page "Box") (page "Card")
        (seed_from_ir-Mirrors by_kind create_live_ir (page "Box")) refl boxes_apart)
      (refl, tt) refl

-- The hashes of the first page are cached, and the node has another type in the next one.
changed_iff_example :
    let d =
      diff_ir_nodes_for_local_save by_kind (some boxed.hashes) (some (page "Box")) (page "Card") in
    let p = nodes_by_id (page "Box").root in
    let q = nodes_by_id (page "Card").root in
    (d.structural ≡ false)
    × ((get "r" d.changed ≡ some (leaf (root_of "Card"))) ↔ (
        (get "r" q ≡ some (leaf (root_of "Card"))) × ¬ Stood (get "r" p) (leaf (root_of "Card"))))
    × (mem "r" d.removed ≡ (has "r" p && not (has "r" q)))
unfolding walk mem
changed_iff_example =
    changed_iff by_kind (some boxed.hashes) (page "Box") (page "Card") "r" (leaf (root_of "Card"))
      refl
      (cached-Tells by_kind boxed (page "Box") (page "Card")
        (seed_from_ir-Mirrors by_kind create_live_ir (page "Box")) (refl, tt) boxes_apart)
