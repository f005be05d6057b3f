-- ===== src/LiveIr/Materialize/Linked.antt =====
-- A cache that holds a document is linked to that document.
use anvilkit_plugin_collab_y.Base.{
  ℕ, zero, suc, ◌+◌, ◌≤◌, ◌≡◌, refl, sym, ap, ◌∙◌, subst, inl, inr, true, false, ◌||◌, none, some,
  List, [], ◌∷◌, ◌++◌, String, string_eq, beq_refl, beq-cases, arith, In, In-append_left,
  In-append_right,
}
use anvilkit_plugin_collab_y.Base.Dict.{Dict, get}
use anvilkit_plugin_collab_y.Base.IdSet.{mem, add, mem-append, mem-add, Distinct, Distinct-append}
use anvilkit_plugin_collab_y.Ir.{
  Own, Node, leaf, branch, Forest, end, more, PageIr, own, node_id, trees, visit, visit_all, size,
  size_forest,
}
use anvilkit_plugin_collab_y.Ir.Walks.{visit_iff}
use anvilkit_plugin_collab_y.LiveIr.{CachedNode, LiveIr, cached_node}
use anvilkit_plugin_collab_y.LiveIr.Local.{Mirrors, cached}
use anvilkit_plugin_collab_y.LiveIr.Materialize.{
  Built, materialize_children, materialize_node, enough, materialize,
}
use anvilkit_plugin_collab_y.LiveIr.Materialize.Fuel.{materialize_node-enough}
use anvilkit_plugin_collab_y.NativeTree.Diff.{child_ids}
use anvilkit_plugin_collab_y.NativeTree.Diff.Laws.{UniqueIds, get-nodes_by_id}
use anvilkit_plugin_collab_y.NativeTree.Read.{with_children}
use anvilkit_plugin_collab_y.NativeTree.RoundTrip.Entered.{ids}
use anvilkit_plugin_collab_y.NativeTree.RoundTrip.Sessions.{visit-Distinct}
use mathlib.Core.List.{map-append}

-- A document without its empty children arrays.
unfoldable mutual
  pub without_empty : Node → Node
  without_empty (leaf o) = leaf o
  without_empty (branch o f) = with_children o (each_without_empty f)

  each_without_empty : Forest → List Node
  each_without_empty end = []
  each_without_empty (more n f) = without_empty n ∷ each_without_empty f

-- The ids visited after some were added.
abbrev Adds : List String → List String → List String → Type 0
Adds v w xs = (x : String) → mem x w ≡ (mem x v || mem x xs)

abbrev Fresh : List String → List String → Type 0
Fresh v xs = Distinct xs × ((x : String) → mem x xs ≡ true → mem x v ≡ false)

-- What is left after an id, or after some ids, has been visited.
Fresh-rest : (id : String) (v xs : List String) → Fresh v (id ∷ xs) → Fresh (add id v) xs
unfolding mem
Fresh-rest id v xs ((n, d), f) = (
  d,
  λ x m. elim (beq-cases id x) [
    | inl (t, e) ↦ absurd (cc (n, subst (λ z. mem z xs ≡ true) (sym e) m))
    | inr (g, e) ↦ ground (arith, mem-add x id v, g, f x (ground (arith, m)))
  ],
)

Fresh-append :
    (v w xs ys : List String) → Fresh v (xs ++ ys) → Fresh v xs × (Adds v w xs → Fresh w ys)
Fresh-append v w xs ys (d, f) =
    let r = Distinct-append xs ys d in
    (
      (r.0, λ x m. f x (ground (arith, mem-append x xs ys, m))),
      λ a. (r.1, λ x m. ground (arith, a x, r.2 x m, f x (ground (arith, mem-append x xs ys, m)))),
    )

record Linked (r : Built) (v : List String) (n : Node) : Type 0 where
  visited : List String
  result : r ≡ (some (without_empty n), visited)
  adds : Adds v visited (ids (visit n))

record LinkedAll (r : List Node × List String) (v : List String) (f : Forest) : Type 0 where
  visited : List String
  result : r ≡ (each_without_empty f, visited)
  adds : Adds v visited (ids (visit_all f))

module _ (hash_node : Own → String) (cache : Dict String CachedNode) where
  abbrev Cached : List Node → Type 0
  Cached ns = (n : Node) → In n ns → get (node_id n) cache ≡ some (cached_node hash_node n)

  node_step :
      (fuel : ℕ) (n : Node) (v : List String)
      → mem (node_id n) v ≡ false
      → get (node_id n) cache ≡ some (cached_node hash_node n)
      → materialize_node (suc fuel) cache (node_id n) v ≡ (
          let r =
            materialize_children (materialize_node fuel cache) (child_ids n) (add (node_id n) v) in
          (some (with_children (own n) r.0), r.1))
  unfolding materialize_node cached_node
  node_step fuel n v f e = rw (f, e) refl

  link_branch :
      (fuel : ℕ) (o : Own) (f : Forest) (v : List String)
      → mem o.id v ≡ false
      → get o.id cache ≡ some (cached_node hash_node (branch o f))
      → LinkedAll
          (materialize_children (materialize_node fuel cache) (ids (trees f)) (add o.id v))
          (add o.id v)
          f
      → Linked (materialize_node (suc fuel) cache o.id v) v (branch o f)
  unfolding visit mem without_empty
  link_branch fuel o f v n e a = record {
    visited = a.visited;
    result =
        node_step fuel (branch o f) v n e
        ∙ ap (λ (r : List Node × List String). (some (with_children o r.0), r.1)) a.result;
    adds = λ x. ground (arith, a.adds x, mem-add x o.id v);
  }

  link_more :
      (fuel : ℕ) (n : Node) (f : Forest) (v : List String)
      → (a : Linked (materialize_node fuel cache (node_id n) v) v n)
      → LinkedAll
          (materialize_children (materialize_node fuel cache) (ids (trees f)) a.visited)
          a.visited
          f
      → LinkedAll
          (materialize_children (materialize_node fuel cache) (node_id n ∷ ids (trees f)) v)
          v
          (more n f)
  unfolding materialize_children visit each_without_empty
  link_more fuel n f v a b = record {
    visited = b.visited;
    result =
        ap
          (λ (r : Built).
            let rest = materialize_children (materialize_node fuel cache) (ids (trees f)) r.1 in
            (elim r.0 [ none ↦ rest.0 | some child ↦ child ∷ rest.0 ], rest.1))
          a.result
        ∙ ap (λ (r : List Node × List String). (without_empty n ∷ r.0, r.1)) b.result;
    adds = λ x. ground (
      arith,
      ap (mem x) (map-append node_id (visit n) (visit_all f)),
      a.adds x,
      b.adds x,
      mem-append x (ids (visit n)) (ids (visit_all f)),
    );
  }

  mutual
    unfolding visit trees size materialize_children mem without_empty each_without_empty

    link :
        (fuel : ℕ) (n : Node) (v : List String)
        → size n ≤ fuel
        → Fresh v (ids (visit n))
        → Cached (visit n)
        → Linked (materialize_node fuel cache (node_id n) v) v n
    link zero (leaf o) v h f c = absurd (omega (arith, h))
    link zero (branch o k) v h f c = absurd (omega (arith, h))
    link (suc fuel) (leaf o) v h f c = record {
      visited = add o.id v;
      result =
          node_step fuel (leaf o) v (f.1 o.id (ground (arith, beq_refl o.id)))
            (c (leaf o) (inl refl));
      adds = λ x. ground (arith, mem-add x o.id v);
    }
    link (suc fuel) (branch o k) v h f c =
        link_branch fuel o k v (f.1 o.id (ground (arith, beq_refl o.id)))
          (c (branch o k) (inl refl))
          (link_all fuel k (add o.id v) (omega (arith, h)) (Fresh-rest o.id v (ids (visit_all k)) f)
            (λ n i. c n (inr i)))

    link_all :
        (fuel : ℕ) (f : Forest) (v : List String)
        → size_forest f ≤ fuel
        → Fresh v (ids (visit_all f))
        → Cached (visit_all f)
        → LinkedAll (materialize_children (materialize_node fuel cache) (ids (trees f)) v) v f
    link_all fuel end v h f c = record { visited = v; result = refl; adds = λ x. ground arith }
    link_all fuel (more n k) v h f c =
        let g = subst (Fresh v) (map-append node_id (visit n) (visit_all k)) f in
        let a =
          link fuel n v (omega (arith, h))
            (Fresh-append v v (ids (visit n)) (ids (visit_all k)) g).0
            (λ m i. c m (In-append_left m (visit n) (visit_all k) i)) in
        link_more fuel n k v a (
          link_all fuel k a.visited (omega (arith, h))
            ((Fresh-append v a.visited (ids (visit n)) (ids (visit_all k)) g).1 a.adds)
            (λ m i. c m (In-append_right m (visit n) (visit_all k) i)))

-- A cache that holds a document of version 1 with unique ids is materialized as that document,
-- equal to it but for the empty children arrays, which are left out.
pub materialize-Mirrors :
    (hash_node : Own → String) (s : LiveIr) (ir : PageIr)
    → Mirrors hash_node s ir
    → UniqueIds ir.root
    → ir.version ≡ "1"
    → materialize s ≡ some (record ir { root = without_empty ir.root })
unfolding materialize mem
materialize-Mirrors hash_node s ir h u v =
    let a =
      link hash_node s.cache (size ir.root + enough s.cache) ir.root [] (omega arith)
        (visit-Distinct ir.root u, λ x m. refl)
        (λ n i.
          h.0 (node_id n)
          ∙ ap (λ o. cached hash_node o none)
              (get-nodes_by_id ir.root n u ((visit_iff ir.root n).1 i))) in
    let built : (materialize_node (enough s.cache) s.cache (node_id ir.root) []).0
        ≡ some (without_empty ir.root) =
      ap (λ (r : Built). r.0)
        (sym (materialize_node-enough s.cache (size ir.root) (node_id ir.root)) ∙ a.result) in
    rw (h.5, h.2, built, h.3, h.4, v) refl
