-- ===== src/NativeTree/Read.antt =====
-- `readNativeTree`, `readSubtree` and `readNodeShallow`: the guarded read of the native tree.
--
-- The depth of `readNode` is kept as the number of levels that are left, `maxDepth + 1 - depth`:
-- none is left exactly when `depth > maxDepth`, so the recursion needs no other measure.
pub mod Bounds
pub mod Decoded
pub mod Guarded
pub mod Notes
use anvilkit_plugin_collab_y.Base.{
  ℕ, zero, suc, ◌+◌, Bool, true, false, Option, none, some, List, [], ◌∷◌, ◌++◌, String, string_eq,
  Keyed, eq_of_discrete, ◌==◌, if◌then◌else◌, ltb, or_else,
}
use anvilkit_plugin_collab_y.Base.Dict.{Dict, get, put}
use anvilkit_plugin_collab_y.Base.IdSet.{mem, add}
use anvilkit_plugin_collab_y.Ir.{
  Json, arr, obj, nil, stop, Own, Node, leaf, branch, forest, PageIr, option_string_eq,
}
use anvilkit_plugin_collab_y.NativeTree.Store.{
  Raw, text, not_text, NodeMap, NativeTree, get_or_create_props_map, get_or_create_child_ids,
}
use anvilkit_plugin_collab_y.NativeTree.Read.Decoded.{
  PropGuards, PropTrip, prop_depth, prop_array, prop_nodes, check_decoded_prop,
}

pub data ReadGuardTrip : Type 0 where
  cycle too_deep too_many prop_bytes : ReadGuardTrip
  decoded : PropTrip → ReadGuardTrip

unfoldable pub ReadGuardTrip_discrete : Discrete ReadGuardTrip
ReadGuardTrip_discrete = hlevel

instance abbrev pub trip_eq : Keyed ReadGuardTrip
trip_eq = eq_of_discrete ReadGuardTrip_discrete

-- `maxBytes`, `maxDepth`, `maxArrayLength` and `maxNodes` of `propGuards`.
pub record PropGuardOptions : Type 0 where
  pub bytes : Option ℕ
  pub depth : Option ℕ
  pub array_length : Option ℕ
  pub nodes : Option ℕ

-- `onGuardTrip` is left out: its calls are recorded in the guard. Absent `propGuards` are options
-- that are all absent.
pub record ReadGuardOptions : Type 0 where
  pub max_depth : Option ℕ
  pub max_nodes : Option ℕ
  pub prop_guards : PropGuardOptions

-- The limits of a guard, and what a read changes of it; `calls` are the calls of `onGuardTrip`.
pub record Limits : Type 0 where
  pub depth : ℕ
  pub nodes : ℕ
  pub props : PropGuards

pub record ReadGuard : Type 0 where
  pub visited : List String
  pub count : ℕ
  pub tripped : Bool
  pub fired_reasons : List ReadGuardTrip
  pub calls : List ReadGuardTrip

unfoldable pub limits_of : ReadGuardOptions → Limits
limits_of options =
    let p = options.prop_guards in
    record {
      depth = or_else options.max_depth 5000;
      nodes = or_else options.max_nodes 200000;
      props = record {
        max_bytes = or_else p.bytes 262144;
        max_depth = or_else p.depth 64;
        max_array_length = or_else p.array_length 100000;
        max_nodes = or_else p.nodes 1000000;
      };
    }

abbrev pub create_read_guard : ReadGuard
create_read_guard = record {
  visited = [];
  count = 0;
  tripped = false;
  fired_reasons = [];
  calls = [];
}

unfoldable pub note_guard : ReadGuard → ReadGuardTrip → ReadGuard
note_guard g reason =
    if mem reason g.fired_reasons
    then g
    else record g { fired_reasons = add reason g.fired_reasons; calls = g.calls ++ (reason ∷ []) }

unfoldable pub trip : ReadGuard → ReadGuardTrip → ReadGuard
trip g reason = if g.tripped then g else note_guard (record g { tripped = true }) reason

-- `props[key] = parsed` on a plain object: under `__proto__` it sets the prototype, no property.
unfoldable pub set_property : String → Json → Dict String Json → Dict String Json
set_property key v props = if key == "__proto__" then props else put key v props

-- One prop of the shared map, added to the props read so far.
unfoldable pub read_prop :
    PropGuards → String → Raw → Dict String Json → ReadGuard → Dict String Json × ReadGuard
read_prop limits key not_text props g = (props, g)
read_prop limits key (text units parsed) props g =
    if ltb limits.max_bytes units then (props, note_guard g prop_bytes) else elim parsed [
      | none ↦ (props, g)
      | some v ↦ elim (check_decoded_prop v limits) [
        | some violation ↦ (props, note_guard g (decoded violation))
        | none ↦ (set_property key v props, g)
      ]
    ]

unfoldable pub read_props :
    PropGuards → List (String × Raw) → Dict String Json → ReadGuard → Dict String Json × ReadGuard
read_props limits [] props g = (props, g)
read_props limits ((key, raw) ∷ es) props g =
    let r = read_prop limits key raw props g in read_props limits es r.0 r.1

abbrev pub array_only : Option Json → Option Json
array_only (some (arr vs)) = some (arr vs)
array_only _ = none

-- `meta && typeof meta === "object" && !Array.isArray(meta)`
abbrev pub object_only : Option Json → Option Json
object_only (some (obj fs)) = some (obj fs)
object_only _ = none

-- A node's own fields and its child ids.
abbrev pub Shallow : Type 0
Shallow = Own × List String

abbrev pub own_of : String → String → NodeMap → Dict String Json → Own
own_of id kind m props = record {
  id = id;
  kind = kind;
  slot = m.slot;
  slot_kind = m.slot_kind;
  props = props;
  assets = array_only m.assets;
  meta = object_only m.meta;
}

unfoldable pub parse_map : PropGuards → String → NodeMap → ReadGuard → Option Shallow × ReadGuard
parse_map limits id m g = elim m.kind [
  | none ↦ (none, g)
  | some kind ↦
      let r = read_props limits (get_or_create_props_map m) [] g in
      (some (own_of id kind m r.0, get_or_create_child_ids m), r.1)
]

unfoldable pub parse_node_own :
    PropGuards → Dict String NodeMap → String → ReadGuard → Option Shallow × ReadGuard
parse_node_own limits nodes id g = elim (get id nodes) [
  | none ↦ (none, g)
  | some m ↦ parse_map limits id m g
]

unfoldable pub read_node_shallow :
    ReadGuardOptions → Dict String NodeMap → String → Option Shallow × ReadGuard
read_node_shallow options nodes id =
    parse_node_own (limits_of options).props nodes id create_read_guard

-- The loop over the child ids, with `f` as the recursive read.
unfoldable pub read_children :
    (String → ReadGuard → Option Node × ReadGuard) → List String → ReadGuard → List Node × ReadGuard
read_children f [] g = ([], g)
read_children f (id ∷ ids) g =
    let r = f id g in
    let rest = read_children f ids r.1 in
    (elim r.0 [ none ↦ rest.0 | some child ↦ child ∷ rest.0 ], rest.1)

-- `if (children.length > 0) node.children = children`
abbrev pub with_children : Own → List Node → Node
with_children o [] = leaf o
with_children o (c ∷ cs) = branch o (forest (c ∷ cs))

abbrev pub link_children :
    (String → ReadGuard → Option Node × ReadGuard)
    → Option Shallow
    → ReadGuard
    → Option Node × ReadGuard
link_children f none g = (none, g)
link_children f (some (o, ids)) g =
    let r = read_children f ids g in (some (with_children o r.0), r.1)

module _ (limits : Limits) (nodes : Dict String NodeMap) where
  -- The node count is raised, and the node is entered unless there are too many.
  unfoldable pub enter :
      (String → ReadGuard → Option Node × ReadGuard) → String → ReadGuard → Option Node × ReadGuard
  enter f id g =
      let counted = record g { count = g.count + 1 } in
      if ltb limits.nodes (g.count + 1)
      then (none, trip counted too_many)
      else let own =
          parse_node_own limits.props nodes id (record counted { visited = add id g.visited }) in
        link_children f own.0 own.1

  unfoldable pub read_node : ℕ → String → ReadGuard → Option Node × ReadGuard
  read_node zero id g = if g.tripped then (none, g) else (none, trip g too_deep)
  read_node (suc levels) id g =
      if g.tripped
      then (none, g)
      else if mem id g.visited
      then (none, trip g cycle)
      else enter (read_node levels) id g

  -- From depth 0.
  unfoldable pub read_from_top : String → Option Node × ReadGuard
  read_from_top id = read_node (limits.depth + 1) id create_read_guard

unfoldable pub read_subtree :
    ReadGuardOptions → Dict String NodeMap → String → Option Node × ReadGuard
read_subtree options nodes id = read_from_top (limits_of options) nodes id

-- The document, and the guard that the read leaves.
abbrev pub document_of : NativeTree → Option Node → Option PageIr
document_of t none = none
document_of t (some root) = some (record {
  version = "1";
  root = root;
  assets = or_else t.assets (arr nil);
  metadata = or_else t.metadata (obj stop);
})

unfoldable pub read_native_tree : ReadGuardOptions → NativeTree → Option PageIr × ReadGuard
read_native_tree options t =
    if t.version == some "1"
    then elim t.root_id [
      | none ↦ (none, create_read_guard)
      | some id ↦ let r = read_from_top (limits_of options) t.nodes id in (document_of t r.0, r.1)
    ]
    else (none, create_read_guard)
