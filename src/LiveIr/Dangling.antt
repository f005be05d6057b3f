-- ===== src/LiveIr/Dangling.antt =====
-- A run in which the cache and a fresh read of the tree differ: the root lists a child whose map
-- is not there, the cache is filled from a read, and the map is added by a later event.
use anvilkit_plugin_collab_y.Base.{
  ◌≡◌, refl, beq_refl, Option, none, some, [], ◌∷◌, String, string_eq,
}
use anvilkit_plugin_collab_y.Base.Dict.{Dict, get, put, del}
use anvilkit_plugin_collab_y.Base.IdSet.{mem, add, add_all}
use anvilkit_plugin_collab_y.Ir.{
  Own, Node, leaf, branch, end, more, PageIr, arr, obj, nil, stop, walk, trees, forest,
  option_string_eq,
}
use anvilkit_plugin_collab_y.NativeTree.Store.{NodeMap, NativeTree, empty_node_map}
use anvilkit_plugin_collab_y.NativeTree.Read.{
  ReadGuardOptions, limits_of, read_native_tree, read_from_top, read_node, enter, parse_node_own,
  parse_map, read_props, read_children, read_node_shallow,
}
use anvilkit_plugin_collab_y.NativeTree.Events.{
  node_key, added, root_event, on_events, on_event, on_keys, on_key, on_node, has_relink,
  derived_of, derive_changed_node_ids,
}
use anvilkit_plugin_collab_y.LiveIr.{
  LiveIr, create_live_ir, cached_node, cache_node, cache_nodes, drop_node, drop_nodes, seed_from_ir,
  read_root_meta, reread, apply_remote_changed_nodes,
}
use anvilkit_plugin_collab_y.LiveIr.Materialize.{
  materialize_children, materialize_node, materialize,
}

abbrev options : ReadGuardOptions
options = record {
  max_depth = some 10;
  max_nodes = some 10;
  prop_guards = record { bytes = none; depth = none; array_length = none; nodes = none };
}

abbrev plain : String → String → Own
plain id kind = record {
  id = id;
  kind = kind;
  slot = none;
  slot_kind = none;
  props = [];
  assets = none;
  meta = none;
}

abbrev page_of : Node → PageIr
page_of root = record { version = "1"; root = root; assets = arr nil; metadata = obj stop }

-- The root lists "x".
abbrev root_map : NodeMap
root_map = record empty_node_map { kind = some "Root"; child_ids = some ("x" ∷ []) }

abbrev tree_of : Dict String NodeMap → NativeTree
tree_of nodes = record {
  version = some "1";
  root_id = some "r";
  assets = none;
  metadata = none;
  nodes = nodes;
}

abbrev before : NativeTree
before = tree_of (("r", root_map) ∷ [])

abbrev after : NativeTree
after = tree_of (("r", root_map) ∷ ("x", record empty_node_map { kind = some "Text" }) ∷ [])

abbrev without_child : PageIr
without_child = page_of (leaf (plain "r" "Root"))

abbrev with_child : PageIr
with_child = page_of (branch (plain "r" "Root") (more (leaf (plain "x" "Text")) end))

read_before : (read_native_tree options before).0 ≡ some without_child
unfolding read_native_tree limits_of read_from_top read_node enter mem add get parse_node_own
    parse_map read_props read_children forest
read_before = rw (beq_refl {K = Option String} (some "1")) refl

read_after : (read_native_tree options after).0 ≡ some with_child
unfolding read_native_tree limits_of read_from_top read_node enter mem add get parse_node_own
    parse_map read_props read_children forest
read_after = rw (beq_refl {K = Option String} (some "1")) refl

abbrev no_hash : Own → String
no_hash o = ""

-- The cache after the event, from the document that was read before it.
abbrev live_after : LiveIr
live_after =
    let d = derive_changed_node_ids (root_event ((node_key "x", added) ∷ []) ∷ []) in
    apply_remote_changed_nodes no_hash
      (record { root_id = some "r"; assets = arr nil; metadata = obj stop })
      (λ id. (read_node_shallow options after.nodes id).0) (some with_child) d.ids d.structural
      d.relink (seed_from_ir no_hash create_live_ir without_child)

stale_after : materialize live_after ≡ some without_child
unfolding materialize apply_remote_changed_nodes derive_changed_node_ids derived_of on_events
    on_event on_keys on_key on_node has_relink add mem seed_from_ir reread add_all read_node_shallow
    parse_node_own get del put forest trees walk materialize_children materialize_node cache_node
    cache_nodes cached_node drop_node drop_nodes read_root_meta limits_of parse_map read_props
stale_after = refl
