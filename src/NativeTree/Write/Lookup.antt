-- ===== src/NativeTree/Write/Lookup.antt =====
-- What the loops of a save leave under an id.
use anvilkit_plugin_collab_y.Base.{
  ℕ, ◌≡◌, refl, sym, ap, subst, inl, inr, false, none, some, List, [], ◌∷◌, map, String, string_eq,
  beq-cases, if◌then◌else◌, arith, Option, or_else,
}
use anvilkit_plugin_collab_y.Base.Dict.{
  Dict, keys, get, put, get-put, del, get-del, last_of, get-put_all, mem-keys,
}
use anvilkit_plugin_collab_y.Base.IdSet.{mem, Distinct}
use anvilkit_plugin_collab_y.Ir.{Json, Node, node_id, walk}
use anvilkit_plugin_collab_y.NativeTree.Diff.{entries, nodes_by_id}
use anvilkit_plugin_collab_y.NativeTree.Diff.Laws.{UniqueIds}
use anvilkit_plugin_collab_y.NativeTree.Store.{NodeMap, empty_node_map, get_or_create_node_map}
use anvilkit_plugin_collab_y.NativeTree.Write.{sweep, write_node, write_nodes}

pub get-absent :
    {V : Type 0} (k : String) (es : Dict String V) → mem k (keys es) ≡ false → get k es ≡ none
get-absent k es h = ground (arith, mem-keys k es, h)

-- Over distinct keys the last entry of a key is its only one.
pub last_of-get :
    {V : Type 0} (k : String) (es : Dict String V) → Distinct (keys es) → last_of k es ≡ get k es
unfolding last_of get
last_of-get k [] d = refl
last_of-get k ((j, v) ∷ es) d = elim (beq-cases j k) [
  | inl (t, e) ↦
      let gone = get-absent k es (subst (λ x. mem x (keys es) ≡ false) e d.0) in
      ground (arith, t, last_of-get k es d.1, gone)
  | inr (f, e) ↦ ground (arith, f, last_of-get k es d.1)
]

keys-entries : (ns : List Node) → keys (entries ns) ≡ map node_id ns
keys-entries [] = refl
keys-entries (n ∷ ns) = ap (◌∷◌ (node_id n)) (keys-entries ns)

pub entries-Distinct : (t : Node) → UniqueIds t → Distinct (keys (entries (walk t)))
entries-Distinct t u = subst Distinct (sym (keys-entries (walk t))) u

pub get-entries :
    (t : Node) (k : String) → UniqueIds t → get k (entries (walk t)) ≡ get k (nodes_by_id t)
unfolding nodes_by_id get
get-entries t k u =
    let d = entries-Distinct t u in
    ground (arith, get-put_all k (entries (walk t)) [], last_of-get k (entries (walk t)) d)

-- A node of the list is written over what its id held; the other ids keep theirs.
abbrev pub written : (Json → ℕ) → Option NodeMap → Option Node → Option Node → Option NodeMap
written units cur p none = cur
written units cur p (some n) = some (write_node units (or_else cur empty_node_map) n p)

pub get-write_nodes :
    (units : Json → ℕ) (baseline : Dict String Node) (es : List (String × Node))
    (nodes : Dict String NodeMap) (k : String)
    → Distinct (keys es)
    → get k (write_nodes units baseline es nodes)
      ≡ written units (get k nodes) (get k baseline) (get k es)
unfolding write_nodes get
get-write_nodes units baseline [] nodes k d = refl
get-write_nodes units baseline ((id, n) ∷ es) nodes k d =
    let w = write_node units (get_or_create_node_map nodes id) n (get id baseline) in
    let ih = get-write_nodes units baseline es (put id w nodes) k d.1 in
    elim (beq-cases id k) [
      | inl (t, e) ↦
          let gone = get-absent k es (subst (λ x. mem x (keys es) ≡ false) e d.0) in
          rw (t, ih, gone, get-put k id w nodes, t)
            (ap (λ x. some (write_node units (get_or_create_node_map nodes x) n (get x baseline)))
              e)
      | inr (f, e) ↦ rw (f, ih, get-put k id w nodes, f) refl
    ]

pub get-sweep :
    (k : String) (desired ids : List String) (nodes : Dict String NodeMap)
    → get k (sweep desired ids nodes)
      ≡ (if mem k ids then (if mem k desired then get k nodes else none) else get k nodes)
unfolding sweep mem
get-sweep k desired [] nodes = refl
get-sweep k desired (id ∷ ids) nodes = ground (
  arith,
  get-sweep k desired ids nodes,
  get-sweep k desired ids (del id nodes),
  get-del k id nodes,
  string_eq.same_key_iff id k,
)
