-- ===== src/NativeTree/Write/Full.antt =====
-- What `applyIRToNativeTree` leaves under an id.
use anvilkit_plugin_collab_y.Base.{
  ℕ, ◌≡◌, refl, ap, ◌∙◌, false, not, ◌||◌, ◌&&◌, Option, none, List, [], ◌∷◌, map, String, ◌==◌,
  string_eq, if◌then◌else◌, arith, is_some,
}
use anvilkit_plugin_collab_y.Base.Dict.{keys, get, has, last_of, get-put_all, mem-keys}
use anvilkit_plugin_collab_y.Base.IdSet.{mem, add_all, mem-append, mem-add_all}
use anvilkit_plugin_collab_y.Ir.{
  Json, Node, leaf, branch, Forest, end, more, PageIr, node_id, walk, walk_back, visit, visit_all,
}
use anvilkit_plugin_collab_y.NativeTree.Diff.{entries, nodes_by_id}
use anvilkit_plugin_collab_y.NativeTree.Diff.Laws.{UniqueIds}
use anvilkit_plugin_collab_y.NativeTree.Store.{NativeTree}
use anvilkit_plugin_collab_y.NativeTree.Write.{
  write_nodes, nodes_of_baseline, apply_ir_to_native_tree,
}
use anvilkit_plugin_collab_y.NativeTree.Write.Lookup.{
  entries-Distinct, get-entries, written, get-write_nodes, get-sweep,
}
use mathlib.Core.List.{map-append}

mutual
  unfolding walk visit mem

  pub mem-visit :
      (k : String) (t : Node) → mem k (map node_id (visit t)) ≡ mem k (map node_id (walk t))
  mem-visit k (leaf o) = refl
  mem-visit k (branch o f) = ap (λ b. o.id == k || b) (mem-visit_all k f)

  pub mem-visit_all :
      (k : String) (f : Forest)
      → mem k (map node_id (visit_all f)) ≡ mem k (map node_id (walk_back f))
  mem-visit_all k end = refl
  mem-visit_all k (more t f) =
      rw (map-append node_id (visit t) (visit_all f), map-append node_id (walk_back f) (walk t))
        (ground (
          arith,
          mem-append k (map node_id (visit t)) (map node_id (visit_all f)),
          mem-append k (map node_id (walk_back f)) (map node_id (walk t)),
          mem-visit k t,
          mem-visit_all k f,
        ))

mem-entries :
    (k : String) (ns : List Node) → mem k (map node_id ns) ≡ is_some (last_of k (entries ns))
unfolding mem last_of
mem-entries k [] = refl
mem-entries k (n ∷ ns) = ground (arith, mem-entries k ns)

-- The ids that the full save keeps are those of the document.
mem-desired : (k : String) (t : Node) → mem k (map node_id (visit t)) ≡ has k (nodes_by_id t)
unfolding nodes_by_id get
mem-desired k t =
    mem-visit k t ∙ mem-entries k (walk t) ∙ ground (arith, get-put_all k (entries (walk t)) [])

mem_nil : (k : String) → mem k [] ≡ false
unfolding mem
mem_nil k = refl

-- What a full save leaves under an id.
pub get-full :
    (units : Json → ℕ) (t : NativeTree) (baseline : Option PageIr) (next : PageIr) (k : String)
    → UniqueIds next.root
    → let p = get k (nodes_of_baseline baseline) in
      let n = get k (nodes_by_id next.root) in
      get k (apply_ir_to_native_tree units t next baseline).nodes
      ≡ (if is_some p && not (is_some n) then none else written units (get k t.nodes) p n)
unfolding apply_ir_to_native_tree
get-full units t baseline next k u =
    let base = nodes_of_baseline baseline in
    let all = entries (walk next.root) in
    ground (
      arith,
      get-sweep k (add_all (map node_id (visit next.root)) []) (keys base)
          (write_nodes units base all t.nodes),
      get-write_nodes units base all t.nodes k (entries-Distinct next.root u),
      get-entries next.root k u,
      mem-keys k base,
      mem-add_all k (map node_id (visit next.root)) [],
      mem-desired k next.root,
      mem_nil k,
    )
