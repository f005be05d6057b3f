-- ===== src/LiveIr/Hashes.antt =====
-- The cached hashes of a document, as a save compares by them.
use anvilkit_plugin_collab_y.Base.{◌≡◌, refl, sym, ap, ◌∙◌, some, String, string_eq, In}
use anvilkit_plugin_collab_y.Base.Dict.{get}
use anvilkit_plugin_collab_y.Ir.{Own, Node, PageIr, own, node_id, walk}
use anvilkit_plugin_collab_y.NativeTree.Diff.{nodes_by_id}
use anvilkit_plugin_collab_y.NativeTree.Diff.Laws.{UniqueIds, get-nodes_by_id}
use anvilkit_plugin_collab_y.NativeTree.Diff.Listed.{Tells}
use anvilkit_plugin_collab_y.LiveIr.{LiveIr, cached_node}
use anvilkit_plugin_collab_y.LiveIr.Lockstep.{Lockstep}
use anvilkit_plugin_collab_y.LiveIr.Local.{Mirrors, NoCollision}

module _ (hash_node : Own → String) (live : LiveIr) (prev next : PageIr)
    (holds : Mirrors hash_node live prev) (once : UniqueIds prev.root) where
  -- Under the id of a node of the document stands the hash of its content.
  pub get-hashes :
      (n p : Node)
      → In p (walk prev.root)
      → node_id n ≡ node_id p
      → get (node_id n) live.hashes ≡ some (hash_node (own p))
  unfolding Lockstep cached_node
  get-hashes n p hp e =
      let here = ap (λ k. get k (nodes_by_id prev.root)) e ∙ get-nodes_by_id prev.root p once hp in
      holds.1 (node_id n) ∙ rw (holds.0 (node_id n), here) refl

  -- The hashes tell the contents apart, as far as two of them do not collide.
  pub cached-Tells : NoCollision hash_node prev next → Tells hash_node (some live.hashes) prev next
  cached-Tells apart n p h hn hp e c =
      let kept : hash_node (own p) ≡ h = some_inj (sym (get-hashes n p hp e) ∙ c) in
      (λ q. apart n p hn hp e (q ∙ sym kept), λ q. ap hash_node q ∙ kept)
    where
      some_inj : {a b : String} → some a ≡ some b → a ≡ b
      some_inj q = cc
