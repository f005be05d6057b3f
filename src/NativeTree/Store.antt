-- ===== src/NativeTree/Store.antt =====
-- The maps of the native tree in src/utils/native-tree.ts, and their accessors.
--
-- A field holds `none` where it is missing or of a type that no reader takes: the sources treat
-- the two alike. A stored JSON text is the value that it parses to; a prop's text keeps its length
-- too, since the reader bounds it. The texts of `JSON.stringify` have the length `units`, which is
-- an argument. Two values have one text exactly when they are equal. Elements of a child list that
-- are not strings, which readers skip, are left out. So are prop values that no JSON text says:
-- undefined, -0, NaN and the infinities.
use anvilkit_plugin_collab_y.Base.{
  ℕ, Bool, true, false, not, Option, none, some, List, [], String, nat_eq, string_eq, ◌==◌, or_else,
}
use anvilkit_plugin_collab_y.Base.Dict.{Dict, get}
use anvilkit_plugin_collab_y.Ir.{Json, null, bool, num, str, arr, obj}

-- A value of a node's `props` map.
pub data Raw : Type 0 where
  text : ℕ → Option Json → Raw
  not_text : Raw

pub record NodeMap : Type 0 where
  pub id : Option String
  pub kind : Option String
  pub slot : Option String
  pub slot_kind : Option String
  pub props : Option (Dict String Raw)
  pub child_ids : Option (List String)
  pub assets : Option Json
  pub meta : Option Json

-- The root map; `nodes` holds what stands under `nativeNodeKey(id)`.
pub record NativeTree : Type 0 where
  pub version : Option String
  pub root_id : Option String
  pub assets : Option Json
  pub metadata : Option Json
  pub nodes : Dict String NodeMap

abbrev pub empty_node_map : NodeMap
empty_node_map = record {
  id = none;
  kind = none;
  slot = none;
  slot_kind = none;
  props = none;
  child_ids = none;
  assets = none;
  meta = none;
}

abbrev pub empty_tree : NativeTree
empty_tree = record { version = none; root_id = none; assets = none; metadata = none; nodes = [] }

abbrev pub get_or_create_node_map : Dict String NodeMap → String → NodeMap
get_or_create_node_map nodes id = or_else (get id nodes) empty_node_map

abbrev pub get_or_create_props_map : NodeMap → Dict String Raw
get_or_create_props_map m = or_else m.props []

abbrev pub get_or_create_child_ids : NodeMap → List String
get_or_create_child_ids m = or_else m.child_ids []

-- A value as a condition.
unfoldable pub truthy : Json → Bool
truthy null = false
truthy (bool b) = b
truthy (num n) = not (n == 0)
truthy (str s) = not (s == "")
truthy (arr vs) = true
truthy (obj fs) = true

-- `x ? JSON.stringify(x) : undefined`
unfoldable pub stringify_truthy : Option Json → Option Json
stringify_truthy none = none
stringify_truthy (some v) = elim (truthy v) [ true ↦ some v | false ↦ none ]
