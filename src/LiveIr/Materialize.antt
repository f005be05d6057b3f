-- ===== src/LiveIr/Materialize.antt =====
-- `materialize`: the cache linked to a document again. The visited set is passed on from child to
-- child; Fuel shows that the fuel suffices for any cache.
pub mod Fuel
pub mod Linked
use anvilkit_plugin_collab_y.Base.{
  ℕ, zero, suc, Option, none, some, List, [], ◌∷◌, String, string_eq, if◌then◌else◌, length,
}
use anvilkit_plugin_collab_y.Base.Dict.{Dict, keys, get}
use anvilkit_plugin_collab_y.Base.IdSet.{mem, add}
use anvilkit_plugin_collab_y.Ir.{Node, PageIr}
use anvilkit_plugin_collab_y.LiveIr.{CachedNode, LiveIr}
use anvilkit_plugin_collab_y.NativeTree.Read.{with_children}

-- A node, or nothing, with the ids visited so far.
abbrev pub Built : Type 0
Built = Option Node × List String

unfoldable pub materialize_children :
    (String → List String → Built) → List String → List String → List Node × List String
materialize_children f [] visited = ([], visited)
materialize_children f (id ∷ ids) visited =
    let r = f id visited in
    let rest = materialize_children f ids r.1 in
    (elim r.0 [ none ↦ rest.0 | some child ↦ child ∷ rest.0 ], rest.1)

abbrev pub materialize_entry : (String → List String → Built) → CachedNode → List String → Built
materialize_entry f c visited =
    let r = materialize_children f c.child_ids visited in (some (with_children c.node r.0), r.1)

-- `build`
unfoldable pub materialize_node : ℕ → Dict String CachedNode → String → List String → Built
materialize_node zero cache id visited = (none, visited)
materialize_node (suc fuel) cache id visited =
    if mem id visited then (none, visited) else elim (get id cache) [
      | none ↦ (none, visited)
      | some c ↦ materialize_entry (materialize_node fuel cache) c (add id visited)
    ]

abbrev pub enough : Dict String CachedNode → ℕ
enough cache = suc (length (keys cache))

abbrev pub with_root : LiveIr → Option Node → Option PageIr
with_root s none = none
with_root s (some root) =
    some (record { version = "1"; root = root; assets = s.assets; metadata = s.metadata })

unfoldable pub materialize : LiveIr → Option PageIr
materialize s =
    if s.seeded
    then elim s.root_id [
      | none ↦ none
      | some id ↦ with_root s (materialize_node (enough s.cache) s.cache id []).0
    ]
    else none
