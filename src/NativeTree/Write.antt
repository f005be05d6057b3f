-- ===== src/NativeTree/Write.antt =====
-- `applyIRToNativeTree` and `applyChangedNodesToNativeTree`: a document written to the native tree
-- as the change against a baseline.
pub mod Deleted
pub mod Full
pub mod Incremental
pub mod Lookup
pub mod Merge
pub mod Skip
use anvilkit_plugin_collab_y.Base.{
  ℕ, Bool, ◌||◌, Option, none, some, List, [], ◌∷◌, map, String, string_eq, ◌==◌, if◌then◌else◌,
}
use anvilkit_plugin_collab_y.Base.Dict.{Dict, keys, get, put, put_all, del, del_all, has}
use anvilkit_plugin_collab_y.Base.IdSet.{mem, add_all}
use anvilkit_plugin_collab_y.Ir.{
  Json, Own, Node, PageIr, arr, obj, nil, stop, own, node_id, walk, visit, json_eq, option_json_eq,
  option_string_eq,
}
use anvilkit_plugin_collab_y.NativeTree.Diff.{entries, nodes_by_id, child_ids}
use anvilkit_plugin_collab_y.NativeTree.Reconcile.{same_list, reconcile_keyed_array}
use anvilkit_plugin_collab_y.NativeTree.Store.{
  Raw, text, NodeMap, NativeTree, get_or_create_node_map, get_or_create_props_map,
  get_or_create_child_ids, stringify_truthy,
}

-- A field after `if (next !== prev)` with a `set` or a `delete`.
unfoldable pub write_or_clear : Option String → Option String → Option String → Option String
write_or_clear cur next prev = if next == prev then cur else next

unfoldable pub write_text : Option Json → Option Json → Option Json → Option Json
write_text cur next prev = if next == prev then cur else next

-- The names that every plain object inherits from `Object.prototype`.
abbrev pub inherited_names : List String
inherited_names =
    "constructor" ∷ "__defineGetter__" ∷ "__defineSetter__" ∷ "hasOwnProperty" ∷ "__lookupGetter__"
    ∷ "__lookupSetter__" ∷ "isPrototypeOf" ∷ "propertyIsEnumerable" ∷ "toString" ∷ "valueOf"
    ∷ "__proto__" ∷ "toLocaleString" ∷ []

-- `key in props`
unfoldable pub key_in : String → Dict String Json → Bool
key_in key props = has key props || mem key inherited_names

-- `for (const key of baseEncoded.keys()) if (!(key in props)) target.delete(key)`
unfoldable pub clear_props : Dict String Json → List String → Dict String Raw → Dict String Raw
clear_props props [] target = target
clear_props props (key ∷ ks) target =
    clear_props props ks (if key_in key props then target else del key target)

unfoldable pub reconcile_child_ids : List String → List String → List String → List String
reconcile_child_ids target desired base =
    if same_list desired base then target else reconcile_keyed_array base desired target

abbrev pub of_baseline : {A : Type 0} → (Own → Option A) → Option Node → Option A
of_baseline f none = none
of_baseline f (some p) = f (own p)

abbrev pub props_of_baseline : Option Node → Option (Dict String Json)
props_of_baseline none = none
props_of_baseline (some p) = some (own p).props

abbrev pub child_ids_of_baseline : Option Node → List String
child_ids_of_baseline none = []
child_ids_of_baseline (some p) = child_ids p

-- `for (const id of baselineIds) if (!desiredIds.has(id)) root.delete(nativeNodeKey(id))`
unfoldable pub sweep : List String → List String → Dict String NodeMap → Dict String NodeMap
sweep desired [] nodes = nodes
sweep desired (id ∷ ids) nodes = sweep desired ids (if mem id desired then nodes else del id nodes)

-- `x?.assets ?? []` and `x?.metadata ?? {}`
abbrev pub assets_of : Option PageIr → Json
assets_of none = arr nil
assets_of (some ir) = ir.assets

abbrev pub metadata_of : Option PageIr → Json
metadata_of none = obj stop
metadata_of (some ir) = ir.metadata

unfoldable pub write_root : NativeTree → PageIr → Option PageIr → NativeTree
write_root t ir baseline = record {
  version = some ir.version;
  root_id = some (node_id ir.root);
  assets = if ir.assets == assets_of baseline then t.assets else some ir.assets;
  metadata = if ir.metadata == metadata_of baseline then t.metadata else some ir.metadata;
  nodes = t.nodes;
}

abbrev pub nodes_of_baseline : Option PageIr → Dict String Node
nodes_of_baseline none = []
nodes_of_baseline (some ir) = nodes_by_id ir.root

-- `units` is the length of a value's JSON text.
module _ (units : Json → ℕ) where
  abbrev pub encode : Json → Raw
  encode v = text (units v) (some v)

  -- The loop over `Object.entries(props)`.
  unfoldable pub set_props :
      Dict String Json → List (String × Json) → Dict String Raw → Dict String Raw
  set_props base [] target = target
  set_props base ((key, value) ∷ es) target =
      set_props base es
        (if some value == get key base then target else put key (encode value) target)

  unfoldable pub reconcile_props :
      Dict String Raw → Dict String Json → Option (Dict String Json) → Dict String Raw
  reconcile_props target props none = set_props [] props target
  reconcile_props target props (some base) =
      let base_encoded = put_all base [] in
      clear_props props (keys base_encoded) (set_props base_encoded props target)

  unfoldable pub write_node : NodeMap → Node → Option Node → NodeMap
  write_node m n baseline = record {
    id = some (own n).id;
    kind = some (own n).kind;
    slot = write_or_clear m.slot (own n).slot (of_baseline (λ o. o.slot) baseline);
    slot_kind =
        write_or_clear m.slot_kind (own n).slot_kind (of_baseline (λ o. o.slot_kind) baseline);
    props =
        some
          (reconcile_props (get_or_create_props_map m) (own n).props (props_of_baseline baseline));
    child_ids = some (
        reconcile_child_ids (get_or_create_child_ids m) (child_ids n)
          (child_ids_of_baseline baseline));
    assets =
        write_text m.assets (stringify_truthy (own n).assets)
          (stringify_truthy (of_baseline (λ o. o.assets) baseline));
    meta =
        write_text m.meta (stringify_truthy (own n).meta)
          (stringify_truthy (of_baseline (λ o. o.meta) baseline));
  }

  -- The nodes of a list, each under its id, with the baseline that the id has.
  unfoldable pub write_nodes :
      Dict String Node → List (String × Node) → Dict String NodeMap → Dict String NodeMap
  write_nodes baseline [] nodes = nodes
  write_nodes baseline ((id, n) ∷ es) nodes =
      write_nodes baseline es
        (put id (write_node (get_or_create_node_map nodes id) n (get id baseline)) nodes)

  unfoldable pub apply_ir_to_native_tree : NativeTree → PageIr → Option PageIr → NativeTree
  apply_ir_to_native_tree t ir baseline =
      let base = nodes_of_baseline baseline in
      record (write_root t ir baseline) {
        nodes =
            sweep (add_all (map node_id (visit ir.root)) []) (keys base)
              (write_nodes base (entries (walk ir.root)) t.nodes);
      }

  unfoldable pub apply_changed_nodes_to_native_tree :
      NativeTree
      → PageIr
      → Option PageIr
      → Dict String Node
      → Dict String Node
      → List String
      → NativeTree
  apply_changed_nodes_to_native_tree t ir prev changed baseline removed =
      record (write_root t ir prev) {
        nodes = del_all removed (write_nodes baseline changed t.nodes);
      }
