-- ===== src/NativeTree/RoundTrip.antt =====
-- What the native tree holds of a document, as the specification of its writes and reads. The
-- order of the props is forgotten: a shared map keeps its own.
pub mod Entered
pub mod Loaded
pub mod Props
pub mod Saved
pub mod Sessions
mod Tests
use anvilkit_plugin_collab_y.Base.{
  ℕ, ◌≡◌, ◌≤◌, ◌==◌, false, true, Option, none, some, List, [], map, String, string_eq, or_else, In,
}
use anvilkit_plugin_collab_y.Base.Dict.{Dict, keys, get, has}
use anvilkit_plugin_collab_y.Base.IdSet.{mem, Distinct}
use anvilkit_plugin_collab_y.Ir.{
  Json, Node, PageIr, arr, obj, nil, stop, Own, leaf, branch, Forest, end, more, own, node_id, walk,
}
use anvilkit_plugin_collab_y.NativeTree.Diff.{child_ids, nodes_by_id}
use anvilkit_plugin_collab_y.NativeTree.Diff.Laws.{UniqueIds}
use anvilkit_plugin_collab_y.NativeTree.Read.{array_only, object_only}
use anvilkit_plugin_collab_y.NativeTree.Read.Decoded.{PropGuards, check_decoded_prop}
use anvilkit_plugin_collab_y.NativeTree.Store.{Raw, NodeMap, NativeTree, stringify_truthy}
use anvilkit_plugin_collab_y.NativeTree.Write.{inherited_names, encode}

abbrev pub encoded : (Json → ℕ) → Option Json → Option Raw
encoded units none = none
encoded units (some v) = some (encode units v)

-- The map of a node.
pub record Holds (units : Json → ℕ) (m : NodeMap) (n : Node) : Type 0 where
  pub id : m.id ≡ some (own n).id
  pub kind : m.kind ≡ some (own n).kind
  pub slot : m.slot ≡ (own n).slot
  pub slot_kind : m.slot_kind ≡ (own n).slot_kind
  pub props : Dict String Raw
  pub has_props : m.props ≡ some props
  pub names : Distinct (keys props)
  pub values : (k : String) → get k props ≡ encoded units (get k (own n).props)
  pub children : m.child_ids ≡ some (child_ids n)
  pub assets : m.assets ≡ stringify_truthy (own n).assets
  pub meta : m.meta ≡ stringify_truthy (own n).meta

-- Under each id there is a map exactly where the document has a node.
abbrev pub HoldsAt : (Json → ℕ) → Option NodeMap → Option Node → Type 0
HoldsAt units none none = Unit
HoldsAt units (some m) (some n) = Holds units m n
HoldsAt units _ _ = ⊥

pub record Mirrors (units : Json → ℕ) (t : NativeTree) (ir : PageIr) : Type 0 where
  pub version : t.version ≡ some ir.version
  pub root_id : t.root_id ≡ some (node_id ir.root)
  pub assets : or_else t.assets (arr nil) ≡ ir.assets
  pub metadata : or_else t.metadata (obj stop) ≡ ir.metadata
  pub nodes : (k : String) → HoldsAt units (get k t.nodes) (get k (nodes_by_id ir.root))

-- A prop name stands once and is not one that plain objects inherit, and no child is listed twice.
pub record ValidNode (n : Node) : Type 0 where
  pub names : Distinct (keys (own n).props)
  pub plain : (k : String) → has k (own n).props ≡ true → mem k inherited_names ≡ false
  pub children : Distinct (child_ids n)

pub record Valid (ir : PageIr) : Type 0 where
  pub ids : UniqueIds ir.root
  pub each : (n : Node) → In n (walk ir.root) → ValidNode n

-- The same fields, the order of the props aside.
pub record SameOwn (a b : Own) : Type 0 where
  pub id : a.id ≡ b.id
  pub kind : a.kind ≡ b.kind
  pub slot : a.slot ≡ b.slot
  pub slot_kind : a.slot_kind ≡ b.slot_kind
  pub props : (k : String) → get k a.props ≡ get k b.props
  pub assets : a.assets ≡ b.assets
  pub meta : a.meta ≡ b.meta

abbrev pub IsEnd : Forest → Type 0
IsEnd end = Unit
IsEnd (more n f) = ⊥

-- The same nodes in the same places; an empty list of children is none.
abbrev mutual
  pub SameTree : Node → Node → Type 0
  SameTree (leaf a) (leaf b) = SameOwn a b
  SameTree (leaf a) (branch b g) = SameOwn a b × IsEnd g
  SameTree (branch a f) (leaf b) = SameOwn a b × IsEnd f
  SameTree (branch a f) (branch b g) = SameOwn a b × SameForest f g

  pub SameForest : Forest → Forest → Type 0
  SameForest end g = IsEnd g
  SameForest (more m f) end = ⊥
  SameForest (more m f) (more n g) = SameTree m n × SameForest f g

pub record SameDocument (a b : PageIr) : Type 0 where
  pub version : a.version ≡ b.version
  pub root : SameTree a.root b.root
  pub assets : a.assets ≡ b.assets
  pub metadata : a.metadata ≡ b.metadata

-- The fields are of the types that the reader takes, and each prop is within its bounds.
pub record Readable (units : Json → ℕ) (l : PropGuards) (n : Node) : Type 0 where
  pub assets : array_only (own n).assets ≡ (own n).assets
  pub meta : object_only (own n).meta ≡ (own n).meta
  pub props :
      (k : String) (v : Json)
      → get k (own n).props ≡ some v
      → (units v ≤ l.max_bytes) × (check_decoded_prop v l ≡ none) × ((k == "__proto__") ≡ false)
