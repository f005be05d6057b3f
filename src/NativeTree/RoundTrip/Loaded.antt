-- ===== src/NativeTree/RoundTrip/Loaded.antt =====
-- The guarded read of a tree that holds a document.
use anvilkit_plugin_collab_y.Base.{
  ℕ, zero, suc, ◌+◌, ◌≤◌, ◌≡◌, refl, sym, ap, ◌∙◌, subst, inl, inr, ◌⊎◌, ◌≢◌, beq-cases, true,
  false, Option, none, some, List, [], ◌∷◌, ◌++◌, String, ◌==◌, string_eq, beq_refl, ltb, arith,
  length, length-append, In, In-append_left, In-append_right,
}
use anvilkit_plugin_collab_y.Base.Dict.{Dict, get}
use anvilkit_plugin_collab_y.Base.IdSet.{mem, add, mem-append, mem-add, Distinct, Distinct-append}
use anvilkit_plugin_collab_y.Ir.{
  Json, Own, Node, leaf, branch, Forest, end, more, own, node_id, trees, forest, visit, visit_all,
}
use anvilkit_plugin_collab_y.NativeTree.Diff.{child_ids}
use anvilkit_plugin_collab_y.NativeTree.Store.{NodeMap}
use anvilkit_plugin_collab_y.NativeTree.Read.{
  Limits, ReadGuard, create_read_guard, read_children, with_children, link_children, enter,
  read_node, read_from_top,
}
use anvilkit_plugin_collab_y.NativeTree.Read.Bounds.{Levels, LevelsAll}
use anvilkit_plugin_collab_y.NativeTree.RoundTrip.{Holds, SameOwn, SameTree, SameForest, Readable}
use anvilkit_plugin_collab_y.NativeTree.RoundTrip.Props.{parse_node_own-Holds}
use anvilkit_plugin_collab_y.NativeTree.RoundTrip.Entered.{
  ids, Entered, Entered-none, Entered-append, Entered-cons, Unvisited,
}
use mathlib.Core.List.{map-append}

with_children-Same :
    (o p : Own) (cs : List Node) (f : Forest)
    → SameOwn o p
    → SameForest (forest cs) f
    → SameTree (with_children o cs) (branch p f)
unfolding forest
with_children-Same o p [] f s h = (s, h)
with_children-Same o p (c ∷ cs) f s h = (s, h)

module _ (units : Json → ℕ) (l : Limits) (nodes : Dict String NodeMap) where
  -- The tree holds a node, which is within the bounds of the reader.
  abbrev pub Stored : Node → Type 0
  Stored n =
      (m : NodeMap) × (get (node_id n) nodes ≡ some m) × Holds units m n × Readable units l.props n

  -- A read of one node with the reads of its children.
  enter-Stored :
      (f : String → ReadGuard → Option Node × ReadGuard) (n : Node) (g : ReadGuard)
      → Stored n
      → g.count + 1 ≤ l.nodes
      → (o : Own) × (enter l nodes f (node_id n) g
          ≡ link_children f
              (some (o, child_ids n))
              (record g { count = g.count + 1; visited = add (node_id n) g.visited }))
        × SameOwn o (own n)
  unfolding enter
  enter-Stored f n g (m, e, h, r) c =
      let entered = record g { count = g.count + 1; visited = add (node_id n) g.visited } in
      let (o, p, s) = parse_node_own-Holds units l.props nodes m n entered e h r in
      let few : ltb l.nodes (g.count + 1) ≡ false = ground (arith, c) in (o, rw (few, p) refl, s)

  record Loaded (r : Option Node × ReadGuard) (g : ReadGuard) (n : Node) : Type 0 where
    tree : Node
    guard : ReadGuard
    result : r ≡ (some tree, guard)
    same : SameTree tree n
    entered : Entered g guard (ids (visit n))

  record LoadedAll (r : List Node × ReadGuard) (g : ReadGuard) (f : Forest) : Type 0 where
    loaded : List Node
    guard : ReadGuard
    result : r ≡ (loaded, guard)
    same : SameForest (forest loaded) f
    entered : Entered g guard (ids (visit_all f))

  -- The tests at the top of the read are passed.
  read_node-enter :
      (k : ℕ) (id : String) (g : ReadGuard)
      → g.tripped ≡ false
      → mem id g.visited ≡ false
      → read_node l nodes (suc k) id g ≡ enter l nodes (read_node l nodes k) id g
  unfolding read_node
  read_node-enter k id g t v = ground (arith, t, v)

  abbrev below : ℕ → String → ReadGuard → Option Node × ReadGuard
  below k = read_node l nodes k

  load_leaf :
      (k : ℕ) (o : Own) (g : ReadGuard)
      → g.tripped ≡ false
      → mem o.id g.visited ≡ false
      → g.count + 1 ≤ l.nodes
      → Stored (leaf o)
      → Loaded (read_node l nodes (suc k) o.id g) g (leaf o)
  unfolding visit read_children
  load_leaf k o g t v c s =
      let e = record g { count = g.count + 1; visited = add o.id g.visited } in
      let (p, q, same) = enter-Stored (below k) (leaf o) g s c in
      record {
        tree = leaf p;
        guard = e;
        result = read_node-enter k o.id g t v ∙ q;
        same = same;
        entered = Entered-cons g e e o.id [] refl refl refl (Entered-none e t);
      }

  load_branch :
      (k : ℕ) (o : Own) (f : Forest) (g : ReadGuard)
      → g.tripped ≡ false
      → mem o.id g.visited ≡ false
      → g.count + 1 ≤ l.nodes
      → Stored (branch o f)
      → (let e = record g { count = g.count + 1; visited = add o.id g.visited } in
          LoadedAll (read_children (below k) (ids (trees f)) e) e f)
      → Loaded (read_node l nodes (suc k) o.id g) g (branch o f)
  unfolding visit
  load_branch k o f g t v c s all =
      let e = record g { count = g.count + 1; visited = add o.id g.visited } in
      let (p, q, same) = enter-Stored (below k) (branch o f) g s c in
      record {
        tree = with_children p all.loaded;
        guard = all.guard;
        result =
            read_node-enter k o.id g t v
            ∙ q
            ∙ ap (λ (r : List Node × ReadGuard). (some (with_children p r.0), r.1)) all.result;
        same = with_children-Same p o all.loaded f same all.same;
        entered = Entered-cons g e all.guard o.id (ids (visit_all f)) refl refl refl all.entered;
      }

  load_more :
      (k : ℕ) (n : Node) (f : Forest) (g : ReadGuard)
      → (a : Loaded (below k (node_id n) g) g n)
      → LoadedAll (read_children (below k) (ids (trees f)) a.guard) a.guard f
      → LoadedAll (read_children (below k) (node_id n ∷ ids (trees f)) g) g (more n f)
  unfolding read_children visit forest
  load_more k n f g a b = record {
    loaded = a.tree ∷ b.loaded;
    guard = b.guard;
    result =
        ap
          (λ (r : Option Node × ReadGuard).
            let rest = read_children (below k) (ids (trees f)) r.1 in
            (elim r.0 [ none ↦ rest.0 | some child ↦ child ∷ rest.0 ], rest.1))
          a.result
        ∙ ap (λ (r : List Node × ReadGuard). (a.tree ∷ r.0, r.1)) b.result;
    same = (a.same, b.same);
    entered =
        subst (Entered g b.guard) (sym (map-append node_id (visit n) (visit_all f))) (
          Entered-append g a.guard b.guard (ids (visit n)) (ids (visit_all f)) a.entered b.entered);
  }

  -- What is left to be read, at a guard: ids not visited, each once, within the node count.
  record Ready (g : ReadGuard) (ns : List Node) : Type 0 where
    running : g.tripped ≡ false
    unvisited : Unvisited g (ids ns)
    once : Distinct (ids ns)
    room : g.count + length (ids ns) ≤ l.nodes
    stored : (m : Node) → In m ns → Stored m

  Ready-top :
      (n : Node) (ns : List Node) (g : ReadGuard)
      → Ready g (n ∷ ns)
      → (mem (node_id n) g.visited ≡ false)
        × (g.count + 1 ≤ l.nodes)
        × Ready (record g { count = g.count + 1; visited = add (node_id n) g.visited }) ns
  unfolding mem
  Ready-top n ns g r = (
    r.unvisited (node_id n) (ground (arith, beq_refl (node_id n))),
    omega (arith, r.room),
    record {
      running = r.running;
      unvisited = λ x m. ground (
        arith,
        mem-add x (node_id n) g.visited,
        r.unvisited x (ground (arith, m)),
        other x m (beq-cases (node_id n) x),
      );
      once = r.once.1;
      room = omega (arith, r.room);
      stored = λ q h. r.stored q (inr h);
    },
  )
    where
      other :
          (x : String)
          → mem x (ids ns) ≡ true
          → ((node_id n == x) ≡ true) × (node_id n ≡ x)
            ⊎ ((node_id n == x) ≡ false) × (node_id n ≢ x)
          → (node_id n == x) ≡ false
      other x m (inl (t, e)) = absurd (cc (r.once.0, subst (λ z. mem z (ids ns) ≡ true) (sym e) m))
      other x m (inr (f, e)) = f

  Ready-first : (xs ys : List Node) (g : ReadGuard) → Ready g (xs ++ ys) → Ready g xs
  Ready-first xs ys g r =
      let e = map-append node_id xs ys in
      record {
        running = r.running;
        unvisited =
            λ x m. r.unvisited x (ap (mem x) e ∙ ground (arith, mem-append x (ids xs) (ids ys), m));
        once = (Distinct-append (ids xs) (ids ys) (subst Distinct e r.once)).0;
        room = omega (arith, r.room, ap length e, length-append (ids xs) (ids ys));
        stored = λ m i. r.stored m (In-append_left m xs ys i);
      }

  Ready-next :
      (xs ys : List Node) (g h : ReadGuard) → Ready g (xs ++ ys) → Entered g h (ids xs) → Ready h ys
  Ready-next xs ys g h r e =
      let p = map-append node_id xs ys in
      let d = Distinct-append (ids xs) (ids ys) (subst Distinct p r.once) in
      record {
        running = e.running;
        unvisited = λ x m.
            let late : mem x (ids (xs ++ ys)) ≡ true =
              ap (mem x) p ∙ ground (arith, mem-append x (ids xs) (ids ys), m) in
            ground (arith, e.visited x, r.unvisited x late, d.2 x m);
        once = d.1;
        room = omega (arith, r.room, ap length p, length-append (ids xs) (ids ys), e.count);
        stored = λ m i. r.stored m (In-append_right m xs ys i);
      }

  mutual
    unfolding visit trees read_children forest

    load :
        (k : ℕ) (n : Node) (g : ReadGuard)
        → Levels k n
        → Ready g (visit n)
        → Loaded (below k (node_id n) g) g n
    load zero n g h r = absurd h
    load (suc k) (leaf o) g h r =
        let t = Ready-top (leaf o) [] g r in
        load_leaf k o g r.running t.0 t.1 (r.stored (leaf o) (inl refl))
    load (suc k) (branch o f) g h r =
        let t = Ready-top (branch o f) (visit_all f) g r in
        load_branch k o f g r.running t.0 t.1 (r.stored (branch o f) (inl refl))
          (load_all k f (record g { count = g.count + 1; visited = add o.id g.visited }) h t.2)

    load_all :
        (k : ℕ) (f : Forest) (g : ReadGuard)
        → LevelsAll k f
        → Ready g (visit_all f)
        → LoadedAll (read_children (below k) (ids (trees f)) g) g f
    load_all k end g h r = record {
      loaded = [];
      guard = g;
      result = refl;
      same = tt;
      entered = Entered-none g r.running;
    }
    load_all k (more n f) g h r =
        let a = load k n g h.0 (Ready-first (visit n) (visit_all f) g r) in
        load_more k n f g a
          (load_all k f a.guard h.1 (Ready-next (visit n) (visit_all f) g a.guard r a.entered))

  -- The read from the top.
  pub load_top :
      (n : Node)
      → Levels (l.depth + 1) n
      → Distinct (ids (visit n))
      → length (ids (visit n)) ≤ l.nodes
      → ((m : Node) → In m (visit n) → Stored m)
      → let r = read_from_top l nodes (node_id n) in
        (tree : Node) × (r.0 ≡ some tree) × SameTree tree n × (r.1.calls ≡ [])
  unfolding read_from_top mem
  load_top n h d c s =
      let a = load (l.depth + 1) n create_read_guard h (record {
        running = refl;
        unvisited = λ x m. refl;
        once = d;
        room = omega (arith, c);
        stored = s;
      }) in
      (
        a.tree,
        ap (λ r. r.0) a.result,
        a.same,
        ap (λ (r : Option Node × ReadGuard). r.1.calls) a.result ∙ a.entered.calls,
      )
