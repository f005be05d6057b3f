-- ===== src/PayloadChain.antt =====
-- src/utils/payload-chain.ts: snapshots stored as keyframes and deltas. The payload of an id is
-- read through a function (`PayloadBackend.read`). A thrown error is `err`; `out_of_fuel` stands
-- for a recursion that the fuel cut short, and Chain/Total shows that it does not occur.
pub mod Chain
pub mod Rebuild
pub mod Replay
pub mod Total
pub mod Empty
pub mod Records
mod Tests
use anvilkit_plugin_collab_y.Base.{
  ℕ, zero, suc, ◌+◌, Bool, true, false, Option, none, some, List, [], ◌∷◌, map, String, string_eq,
  if◌then◌else◌, length,
}
use anvilkit_plugin_collab_y.Base.Dict.{Dict, keys, values, get, put, put_all, del_all}
use anvilkit_plugin_collab_y.Base.IdSet.{mem}
use anvilkit_plugin_collab_y.Ir.{
  Json, Own, Node, leaf, branch, Forest, PageIr, own, node_id, children_key, forest, visit,
}

abbrev pub keyframe_interval : ℕ
keyframe_interval = 20

-- A node's own content, and the ids of its children where it has the `children` key.
pub record StoredNode : Type 0 where
  pub content : Own
  pub child_ids : Option (List String)

pub data StoredPayload : Type 0 where
  full : PageIr → StoredPayload
  delta : String → List StoredNode → List String → Json → Json → StoredPayload

pub data ChainError : Type 0 where
  chain_cycle missing_record node_cycle missing_node : String → ChainError
  out_of_fuel : ChainError

pub data Result (A : Type 0) : Type 0 where
  ok : A → Result A
  err : ChainError → Result A

infixl 5 ◌>>=◌
abbrev pub ◌>>=◌ : {A B : Type 0} → Result A → (A → Result B) → Result B
ok a >>= f = f a
err e >>= f = err e

abbrev pub ids_of : Option (List Node) → Option (List String)
ids_of none = none
ids_of (some cs) = some (map node_id cs)

unfoldable pub to_stored_node : Node → StoredNode
to_stored_node n = record { content = own n; child_ids = ids_of (children_key n) }

unfoldable pub from_stored_node : StoredNode → Option (List Node) → Node
from_stored_node s none = leaf s.content
from_stored_node s (some cs) = branch s.content (forest cs)

unfoldable pub build_delta_payload :
    String → PageIr → Dict String Node → List String → StoredPayload
build_delta_payload base ir changed removed =
    delta base (map to_stored_node (values changed)) removed ir.assets ir.metadata

-- `ids.map(build)`, where a call that throws ends the whole.
unfoldable pub map_all : {A : Type 0} → (String → Result A) → List String → Result (List A)
map_all f [] = ok []
map_all f (id ∷ ids) = do a ← f id; as' ← map_all f ids; ok (a ∷ as')

-- `stored.childIds === undefined ? undefined : stored.childIds.map(build)`
unfoldable pub map_present :
    {A : Type 0} → (String → Result A) → Option (List String) → Result (Option (List A))
unfolding map_all
map_present f none = ok none
map_present f (some ids) = do as' ← map_all f ids; ok (some as')

-- A node of `build`, its children built by `below`.
unfoldable pub build_children : (String → Result Node) → StoredNode → Result Node
build_children below stored = do
  children ← map_present below stored.child_ids
  ok (from_stored_node stored children)

-- `build` of `applyStoredDelta`. `visiting` is the path from the root: what is added on the way
-- in is deleted on the way out.
unfoldable pub build : Dict String StoredNode → ℕ → List String → String → Result Node
build nodes zero visiting id = err out_of_fuel
build nodes (suc fuel) visiting id =
    let below = build nodes fuel (id ∷ visiting) in
    if mem id visiting then err (node_cycle id) else elim (get id nodes) [
      | none ↦ err (missing_node id)
      | some stored ↦ build_children below stored
    ]

-- `own.set(node.id, toStoredNode(node))` for each node of the walk.
unfoldable pub flatten_tree : Node → Dict String StoredNode
flatten_tree root = put_all (map (λ n. (node_id n, to_stored_node n)) (visit root)) []

abbrev pub stored_entries : List StoredNode → List (String × StoredNode)
stored_entries = map (λ s. (s.content.id, s))

-- The base overlaid with a delta's removals and then its changes.
unfoldable pub overlay : Node → List StoredNode → List String → Dict String StoredNode
overlay root changed removed =
    put_all (stored_entries changed) (del_all removed (flatten_tree root))

unfoldable pub apply_stored_delta :
    PageIr → List StoredNode → List String → Json → Json → Result PageIr
apply_stored_delta base changed removed assets metadata =
    let nodes = overlay base.root changed removed in
    do
      root ← build nodes (suc (length (keys nodes))) [] (node_id base.root)
      ok (record { version = "1"; root = root; assets = assets; metadata = metadata })

-- A payload that was read, its base reconstructed by `below`.
unfoldable pub replay : (String → Result PageIr) → StoredPayload → Result PageIr
replay below (full ir) = ok ir
replay below (delta base changed removed assets metadata) = do
  ir ← below base
  apply_stored_delta ir changed removed assets metadata

-- `reconstruct`: back along `base` to the nearest keyframe.
unfoldable pub reconstruct :
    (String → Option StoredPayload) → ℕ → List String → String → Result PageIr
reconstruct read zero seen id = err out_of_fuel
reconstruct read (suc fuel) seen id =
    let below = reconstruct read fuel (id ∷ seen) in
    if mem id seen
    then err (chain_cycle id)
    else elim (read id) [ none ↦ err (missing_record id) | some payload ↦ replay below payload ]

-- Over the records of a store, one round for each record and one more suffice.
unfoldable pub reconstruct_payload : Dict String StoredPayload → String → Result PageIr
reconstruct_payload store id = reconstruct (λ k. get k store) (suc (length (keys store))) [] id
