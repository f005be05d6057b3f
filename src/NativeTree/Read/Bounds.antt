-- ===== src/NativeTree/Read/Bounds.antt =====
-- The size and the depth of what a guarded read returns.
use anvilkit_plugin_collab_y.Base.{
  ℕ, zero, suc, ◌+◌, ◌≤◌, ◌≡◌, refl, ap, subst, inl, inr, Option, none, some, List, [], ◌∷◌, map,
  String, string_eq, if-both, ltb, ◌==◌, arith, length, length-append, Option-cases, All,
  Bool-cases,
}
use anvilkit_plugin_collab_y.Base.Dict.{Dict}
use anvilkit_plugin_collab_y.Base.IdSet.{mem, Distinct}
use anvilkit_plugin_collab_y.Ir.{
  Own, Node, leaf, branch, Forest, end, more, node_id, forest, visit, visit_all, size, size_forest,
  PageIr, option_string_eq,
}
use anvilkit_plugin_collab_y.NativeTree.Store.{NodeMap, NativeTree}
use anvilkit_plugin_collab_y.NativeTree.Read.{
  Limits, limits_of, ReadGuardOptions, ReadGuard, create_read_guard, Shallow, read_children,
  with_children, link_children, enter, read_node, read_from_top, document_of, read_native_tree,
  trip_eq,
}
use anvilkit_plugin_collab_y.NativeTree.Read.Guarded.{ids_of, read_from_top-ids}
use mathlib.Core.List.{map-append}

-- A tree of at most so many levels.
abbrev mutual
  pub Levels : ℕ → Node → Type 0
  Levels zero n = ⊥
  Levels (suc k) (leaf o) = Unit
  Levels (suc k) (branch o f) = LevelsAll k f

  pub LevelsAll : ℕ → Forest → Type 0
  LevelsAll k end = Unit
  LevelsAll k (more n f) = Levels k n × LevelsAll k f

mutual
  unfolding visit size

  pub length-visit : (n : Node) → length (map node_id (visit n)) ≡ size n
  length-visit (leaf o) = refl
  length-visit (branch o f) = ap suc (length-visit_all f)

  length-visit_all : (f : Forest) → length (map node_id (visit_all f)) ≡ size_forest f
  length-visit_all end = refl
  length-visit_all (more n f) = rw (map-append node_id (visit n) (visit_all f)) (
      omega (
        arith,
        length-append (map node_id (visit n)) (map node_id (visit_all f)),
        length-visit n,
        length-visit_all f,
      ))

abbrev OptionLevels : ℕ → Option Node → Type 0
OptionLevels k none = Unit
OptionLevels k (some n) = Levels k n

children-Levels :
    (k : ℕ) (o : Own) (cs : List Node) → All (Levels k) cs → Levels (suc k) (with_children o cs)
unfolding forest
children-Levels k o [] h = tt
children-Levels k o (c ∷ cs) h = all (c ∷ cs) h
  where
    all : (ns : List Node) → All (Levels k) ns → LevelsAll k (forest ns)
    all [] h = tt
    all (n ∷ ns) (a, b) = (a, all ns b)

read_children-Levels :
    (k : ℕ) (f : String → ReadGuard → Option Node × ReadGuard) (ids : List String) (g : ReadGuard)
    → ((id : String) (h : ReadGuard) → OptionLevels k (f id h).0)
    → All (Levels k) (read_children f ids g).0
unfolding read_children
read_children-Levels k f [] g h = tt
read_children-Levels k f (id ∷ ids) g h =
    one (f id g).0 (h id g) (read_children f ids (f id g).1).0
      (read_children-Levels k f ids (f id g).1 h)
  where
    one :
        (o : Option Node)
        → OptionLevels k o
        → (ns : List Node) → All (Levels k) ns
        → All (Levels k) (elim o [ none ↦ ns | some child ↦ child ∷ ns ])
    one none a ns b = b
    one (some n) a ns b = (a, b)

link_children-Levels :
    (k : ℕ) (f : String → ReadGuard → Option Node × ReadGuard) (s : Option Shallow) (g : ReadGuard)
    → ((id : String) (h : ReadGuard) → OptionLevels k (f id h).0)
    → OptionLevels (suc k) (link_children f s g).0
link_children-Levels k f none g h = tt
link_children-Levels k f (some (o, ids)) g h =
    children-Levels k o (read_children f ids g).0 (read_children-Levels k f ids g h)

module _ (l : Limits) (nodes : Dict String NodeMap) where
  abbrev Below : ℕ → Option Node × ReadGuard → Type 0
  Below k r = OptionLevels k r.0

  read_node-Levels : (k : ℕ) (id : String) (g : ReadGuard) → Below k (read_node l nodes k id g)
  unfolding read_node enter
  read_node-Levels zero id g = if-both (Below 0) g.tripped _ _ (λ t. tt) (λ f. tt)
  read_node-Levels (suc k) id g =
      if-both (Below (suc k)) g.tripped _ _ (λ t. tt)
        (λ f.
          if-both (Below (suc k)) (mem id g.visited) _ _ (λ t. tt)
            (λ f.
              if-both (Below (suc k)) (ltb l.nodes (g.count + 1)) _ _ (λ t. tt)
                (λ f. link_children-Levels k (read_node l nodes k) _ _ (read_node-Levels k))))

  read_from_top-Levels : (id : String) → OptionLevels (l.depth + 1) (read_from_top l nodes id).0
  unfolding read_from_top
  read_from_top-Levels id = read_node-Levels (l.depth + 1) id create_read_guard

pub document_of-root :
    (t : NativeTree) (o : Option Node) (ir : PageIr) → document_of t o ≡ some ir → o ≡ some ir.root
document_of-root t none ir h = cc
document_of-root t (some n) ir h = cc (h)

-- Whatever the shared maps hold, a document that the guarded read returns has each id once, no
-- more nodes than `maxNodes` and no node deeper than `maxDepth`, and the read reports each
-- reason at most once.
pub read_native_tree-bounds :
    (options : ReadGuardOptions) (t : NativeTree) (ir : PageIr)
    → (read_native_tree options t).0 ≡ some ir
    → Distinct (map node_id (visit ir.root))
      × (size ir.root ≤ (limits_of options).nodes)
      × Levels ((limits_of options).depth + 1) ir.root
      × Distinct (read_native_tree options t).1.calls
unfolding read_native_tree
read_native_tree-bounds options t ir h = elim (Bool-cases (t.version == some "1")) [
  | inr f ↦ absurd (cc (rw (f, read_native_tree) at h))
  | inl v ↦ elim (Option-cases t.root_id) [
    | inl e ↦ absurd (cc (rw (v, e, read_native_tree) at h))
    | inr (id, e) ↦
        let l = limits_of options in
        let r = read_from_top l t.nodes id in
        let root = document_of-root t r.0 ir (rw (v, e, read_native_tree) at h) in
        let c = read_from_top-ids l t.nodes id in
        let deep : OptionLevels (l.depth + 1) r.0 = read_from_top-Levels l t.nodes id in
        rw (v, e, read_native_tree)
          (
            subst (λ o. Distinct (ids_of o)) root c.0,
            omega (arith, c.1, ap (λ o. length (ids_of o)) root, length-visit ir.root),
            subst (OptionLevels (l.depth + 1)) root deep,
            c.2.1,
          )
  ]
]
