-- ===== src/NativeTree/Events.antt =====
-- `deriveChangedNodeIds`: the events of a deep observer of the native tree as the nodes that they
-- change.
pub mod Described
mod Tests
use anvilkit_plugin_collab_y.Base.{
  ℕ, Bool, true, false, not, ◌&&◌, ◌||◌, Option, none, some, List, [], ◌∷◌, String, string_eq, ◌==◌,
  if◌then◌else◌, any,
}
use anvilkit_plugin_collab_y.Base.IdSet.{add}
use anvilkit_plugin_collab_y.LiveIr.{DerivedRelink}

-- An element of a path, or a key of the root map: the key of a node, another text or an index.
pub data Segment : Type 0 where
  node_key name : String → Segment
  index : ℕ → Segment

-- `change.action`
pub data Action : Type 0 where
  added updated deleted : Action

-- An event on the root map with its changed keys, or one below it with its path.
pub data TreeEvent : Type 0 where
  root_event : List (Segment × Action) → TreeEvent
  deep_event : Segment → List Segment → TreeEvent

-- The sets that the loop fills.
pub record EventChanges : Type 0 where
  pub ids : List String
  pub added_ids : List String
  pub removed_ids : List String
  pub parents_touched : List String
  pub structural : Bool

abbrev pub no_changes : EventChanges
no_changes = record {
  ids = [];
  added_ids = [];
  removed_ids = [];
  parents_touched = [];
  structural = false;
}

-- The keys of a whole-document change.
unfoldable pub is_document_key : Segment → Bool
is_document_key (name s) = s == "version" || s == "rootId" || s == "assets" || s == "metadata"
is_document_key _ = false

unfoldable pub is_child_ids : Segment → Bool
is_child_ids (name s) = s == "childIds"
is_child_ids _ = false

unfoldable pub on_node : EventChanges → String → Action → EventChanges
on_node c id deleted = record c { ids = add id c.ids; removed_ids = add id c.removed_ids }
on_node c id _ = record c { ids = add id c.ids; added_ids = add id c.added_ids }

unfoldable pub on_key : EventChanges → Segment → Action → EventChanges
on_key c (node_key id) action = on_node c id action
on_key c k action = if is_document_key k then record c { structural = true } else c

unfoldable pub on_keys : EventChanges → List (Segment × Action) → EventChanges
on_keys c [] = c
on_keys c ((k, action) ∷ ks) = on_keys (on_key c k action) ks

unfoldable pub on_event : EventChanges → TreeEvent → EventChanges
on_event c (root_event ks) = on_keys c ks
on_event c (deep_event (node_key id) path) = record c {
  ids = add id c.ids;
  parents_touched = if any is_child_ids path then add id c.parents_touched else c.parents_touched;
}
on_event c (deep_event _ path) = c

unfoldable pub on_events : EventChanges → List TreeEvent → EventChanges
on_events c [] = c
on_events c (e ∷ es) = on_events (on_event c e) es

abbrev pub is_empty : List String → Bool
is_empty [] = true
is_empty (x ∷ xs) = false

pub record Derived : Type 0 where
  pub ids : List String
  pub structural : Bool
  pub relink : Option DerivedRelink

unfoldable pub has_relink : EventChanges → Bool
has_relink c =
    not (is_empty c.added_ids) || not (is_empty c.removed_ids) || not (is_empty c.parents_touched)

unfoldable pub derived_of : EventChanges → Derived
derived_of c =
    if c.structural || not (has_relink c)
    then record { ids = c.ids; structural = c.structural; relink = none }
    else record {
      ids = c.ids;
      structural = false;
      relink = some (record {
        parents_touched = c.parents_touched;
        added_ids = c.added_ids;
        removed_ids = c.removed_ids;
      });
    }

unfoldable pub derive_changed_node_ids : List TreeEvent → Derived
derive_changed_node_ids es = derived_of (on_events no_changes es)
