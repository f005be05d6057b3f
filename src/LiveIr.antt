-- ===== src/LiveIr.antt =====
-- src/utils/live-ir.ts: the cache of the live document, a node's own fields and child ids under
-- its id, and its writes by local saves and remote events; Materialize links it to a document
-- again. The reads of the native tree are arguments.

pub mod Lockstep
mod Dangling
pub mod Local
pub mod Hashes
pub mod Materialize
mod Tests
use anvilkit_plugin_collab_y.Base.{
  Bool, true, false, not, ◌||◌, Option, none, some, is_some, or_else, List, [], ◌∷◌, ◌++◌, map,
  String, string_eq, if◌then◌else◌,
}
use anvilkit_plugin_collab_y.Base.Dict.{Dict, put, put_all, del, del_all}
use anvilkit_plugin_collab_y.Base.IdSet.{mem, add_all}
use anvilkit_plugin_collab_y.Ir.{Json, arr, nil, obj, stop, Own, Node, PageIr, own, node_id, walk}
use anvilkit_plugin_collab_y.NativeTree.Diff.{child_ids}

pub record CachedNode : Type 0 where
  pub node : Own
  pub child_ids : List String
  pub hash : String

pub record LiveIr : Type 0 where
  pub cache : Dict String CachedNode
  pub hashes : Dict String String
  pub root_id : Option String
  pub assets : Json
  pub metadata : Json
  pub seeded : Bool

abbrev pub create_live_ir : LiveIr
create_live_ir = record {
  cache = [];
  hashes = [];
  root_id = none;
  assets = arr nil;
  metadata = obj stop;
  seeded = false;
}

-- The ids that `DerivedRelink` carries.
pub record DerivedRelink : Type 0 where
  pub parents_touched : List String
  pub added_ids : List String
  pub removed_ids : List String

-- What `readRootMeta` finds: the root id where it is a text, and the parsed or default values.
pub record RootMeta : Type 0 where
  pub root_id : Option String
  pub assets : Json
  pub metadata : Json

abbrev pub ids_to_read : List String → Option DerivedRelink → List String
ids_to_read ids none = ids
ids_to_read ids (some r) = add_all r.added_ids (add_all r.parents_touched ids)

abbrev pub removed_of : Option DerivedRelink → List String
removed_of none = []
removed_of (some r) = r.removed_ids

-- `hash_node` is `hashNodeContent`, which reads a node's own fields.
module _ (hash_node : Own → String) where
  unfoldable pub cached_node : Node → CachedNode
  cached_node n = record { node = own n; child_ids = child_ids n; hash = hash_node (own n) }

  -- The two maps, written together.
  unfoldable pub cache_node : LiveIr → String → CachedNode → LiveIr
  cache_node s id c = record s { cache = put id c s.cache; hashes = put id c.hash s.hashes }

  unfoldable pub drop_node : LiveIr → String → LiveIr
  drop_node s id = record s { cache = del id s.cache; hashes = del id s.hashes }

  unfoldable pub drop_nodes : LiveIr → List String → LiveIr
  drop_nodes s [] = s
  drop_nodes s (id ∷ ids) = drop_nodes (drop_node s id) ids

  unfoldable pub cache_nodes : LiveIr → List (String × Node) → LiveIr
  cache_nodes s [] = s
  cache_nodes s ((id, n) ∷ es) = cache_nodes (cache_node s id (cached_node n)) es

  unfoldable pub seed_from_ir : LiveIr → PageIr → LiveIr
  seed_from_ir s ir =
      record (cache_nodes
        (record s {
          cache = [];
          hashes = [];
          root_id = some (node_id ir.root);
          assets = ir.assets;
          metadata = ir.metadata;
        })
        (map (λ n. (node_id n, n)) (walk ir.root))) { seeded = true }

  unfoldable pub set_local_changed : LiveIr → PageIr → Dict String Node → List String → LiveIr
  set_local_changed s ir changed removed =
      if s.seeded
      then cache_nodes
          (drop_nodes
            (record s {
              root_id = some (node_id ir.root);
              assets = ir.assets;
              metadata = ir.metadata;
            })
            removed)
          changed
      else seed_from_ir s ir

  unfoldable pub full_rebuild : LiveIr → Option PageIr → LiveIr
  full_rebuild s none = s
  full_rebuild s (some ir) = seed_from_ir s ir

  unfoldable pub read_root_meta : LiveIr → RootMeta → LiveIr
  read_root_meta s m = record s {
    root_id = elim m.root_id [ some id ↦ some id | none ↦ s.root_id ];
    assets = m.assets;
    metadata = m.metadata;
  }

  -- The loop over the ids to read; `none` where a read failed and the whole is rebuilt.
  unfoldable pub reread :
      (String → Option (Own × List String)) → List String → List String → LiveIr → LiveIr × Bool
  reread shallow removed [] s = (s, true)
  reread shallow removed (id ∷ ids) s =
      if mem id removed then reread shallow removed ids (drop_node s id) else elim (shallow id) [
        | none ↦ (s, false)
        | some (o, kids) ↦
            reread shallow removed ids
              (cache_node s id (record { node = o; child_ids = kids; hash = hash_node o }))
      ]

  -- `root` is `readRootMeta`'s read, `shallow` is `readNodeShallow` and `whole` the result of
  -- `readNativeTree`, all of the tree as it stands.
  unfoldable pub apply_remote_changed_nodes :
      RootMeta
      → (String → Option (Own × List String))
      → Option PageIr
      → List String
      → Bool
      → Option DerivedRelink
      → LiveIr
      → LiveIr
  apply_remote_changed_nodes root shallow whole ids structural relink s =
      if structural || not s.seeded
      then full_rebuild s whole
      else let (s', all_read) =
          reread shallow (removed_of relink) (ids_to_read ids relink) (read_root_meta s root) in
        if all_read then drop_nodes s' (removed_of relink) else full_rebuild s' whole
