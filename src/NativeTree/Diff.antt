-- ===== src/NativeTree/Diff.antt =====
-- `diffIRNodesForLocalSave`: which nodes a local save changes.
pub mod Baseline
pub mod Laws
pub mod Listed
use anvilkit_plugin_collab_y.Base.{
  Bool, true, false, not, ◌&&◌, ◌||◌, Option, none, some, List, [], ◌∷◌, map, String, ◌==◌, Keyed,
  string_eq, if◌then◌else◌,
}
use anvilkit_plugin_collab_y.Base.Dict.{Dict, keys, get, put, put_all, has}
use anvilkit_plugin_collab_y.Base.IdSet.{mem, add}
use anvilkit_plugin_collab_y.Ir.{
  Own, Node, PageIr, own, node_id, children, walk, option_json_eq, option_string_eq, props_eq,
  ids_eq,
}

-- `m.set(n.id, n)` for each node of a walk.
abbrev pub entries : List Node → List (String × Node)
entries = map (λ n. (node_id n, n))

unfoldable pub nodes_by_id : Node → Dict String Node
nodes_by_id root = put_all (entries (walk root)) []

abbrev pub child_ids : Node → List String
child_ids n = map node_id (children n)

-- `nKids.length !== pKids.length || nKids.some((k, i) => k !== pKids[i])`
unfoldable pub kids_differ : Node → Node → Bool
kids_differ n p = not (child_ids n == child_ids p)

-- The comparison without a cached hash.
unfoldable pub own_differs : Own → Own → Bool
own_differs n p =
    not (n.kind == p.kind)
    || not (n.slot == p.slot)
    || not (n.slot_kind == p.slot_kind)
    || not (n.props == p.props)
    || not (n.assets == p.assets)
    || not (n.meta == p.meta)

pub record LocalDiff : Type 0 where
  pub structural : Bool
  pub changed : Dict String Node
  pub baseline : Dict String Node
  pub removed : List String

abbrev pub structural_result : LocalDiff
structural_result = record { structural = true; changed = []; baseline = []; removed = [] }

-- `for (const id of prevById.keys()) if (!nextById.has(id)) removed.add(id)`
unfoldable pub missing : Dict String Node → List String → List String → List String
missing next [] out = out
missing next (id ∷ ids) out = missing next ids (if has id next then out else add id out)

-- `hash` is `hashNodeContent`, and `hashes` the cached hashes of the previous document.
module _ {H : Type 0} ⦃eh : Keyed H⦄ (hash : Own → H) (hashes : Option (Dict String H)) where
  abbrev pub cached_hash : String → Option H
  cached_hash id = elim hashes [ none ↦ none | some m ↦ get id m ]

  unfoldable pub content_changed : Node → Node → Bool
  content_changed n p = elim (cached_hash (node_id n)) [
    | some h ↦ not (hash (own n) == h)
    | none ↦ own_differs (own n) (own p)
  ]

  -- A node of the next document against its previous version, if there is one.
  unfoldable pub altered : Option Node → Node → Bool
  altered none n = true
  altered (some p) n = kids_differ n p || content_changed n p

  -- One round of the loop over `nextById`.
  unfoldable pub classify : Dict String Node → LocalDiff → String → Node → LocalDiff
  unfolding altered
  classify prev d id n = elim (get id prev) [
    | none ↦ record d { changed = put id n d.changed }
    | some p ↦
        if kids_differ n p || content_changed n p
        then record d { changed = put id n d.changed; baseline = put id p d.baseline }
        else d
  ]

  unfoldable pub classify_all : Dict String Node → LocalDiff → List (String × Node) → LocalDiff
  classify_all prev d [] = d
  classify_all prev d ((id, n) ∷ es) = classify_all prev (classify prev d id n) es

  unfoldable pub diff_present : Node → Node → LocalDiff
  diff_present prev next =
      let prev_by_id = nodes_by_id prev in
      let next_by_id = nodes_by_id next in
      classify_all prev_by_id
        (record {
          structural = false;
          changed = [];
          baseline = [];
          removed = missing next_by_id (keys prev_by_id) [];
        })
        next_by_id

  unfoldable pub diff_ir_nodes_for_local_save : Option PageIr → PageIr → LocalDiff
  unfolding diff_present
  diff_ir_nodes_for_local_save none next = structural_result
  diff_ir_nodes_for_local_save (some prev) next =
      if node_id prev.root == node_id next.root
      then diff_present prev.root next.root
      else structural_result
