-- ===== src/NativeTree/Read/Guarded.antt =====
-- What a guarded read returns over any tree, malformed ones included: no id twice, and no more
-- nodes or levels than allowed.
use anvilkit_plugin_collab_y.Base.{
  ℕ, zero, suc, ◌+◌, ◌≤◌, ◌≡◌, refl, sym, ap, ◌∙◌, subst, inl, inr, true, false, ◌||◌, Option, none,
  some, List, [], ◌∷◌, ◌++◌, map, String, string_eq, ◌==◌, beq_refl, ltb, if-both, arith, length,
  length-append, Bool-cases,
}
use anvilkit_plugin_collab_y.Base.Dict.{Dict}
use anvilkit_plugin_collab_y.Base.IdSet.{mem, add, mem-append, mem-add, Distinct, append-Distinct}
use anvilkit_plugin_collab_y.Ir.{Own, Node, node_id, forest, visit, visit_all}
use anvilkit_plugin_collab_y.NativeTree.Store.{NodeMap}
use anvilkit_plugin_collab_y.NativeTree.Read.{
  ReadGuardTrip, Limits, ReadGuard, create_read_guard, trip, cycle, too_deep, too_many, Shallow,
  parse_node_own, read_children, with_children, link_children, enter, read_node, read_from_top,
}
use anvilkit_plugin_collab_y.NativeTree.Read.Notes.{
  ReportsOnce, SameVisits, Notes, HasId, trip-ReportsOnce, trip-SameVisits, parse_node_own-Notes,
}
use mathlib.Core.List.{map-append}

-- The ids of what a read returns, in document order.
abbrev pub ids_of : Option Node → List String
ids_of none = []
ids_of (some n) = map node_id (visit n)

abbrev ids_of_all : List Node → List String
ids_of_all [] = []
ids_of_all (n ∷ ns) = map node_id (visit n) ++ ids_of_all ns

ids_of_children :
    (o : Own) (cs : List Node) → map node_id (visit (with_children o cs)) ≡ o.id ∷ ids_of_all cs
unfolding visit forest
ids_of_children o [] = refl
ids_of_children o (c ∷ cs) = ap (◌∷◌ o.id) (all (c ∷ cs))
  where
    all : (ns : List Node) → map node_id (visit_all (forest ns)) ≡ ids_of_all ns
    all [] = refl
    all (n ∷ ns) =
        map-append node_id (visit n) (visit_all (forest ns))
        ∙ ap (λ xs. map node_id (visit n) ++ xs) (all ns)

-- From one guard to a later one, with these ids returned in between: they were not visited before
-- and are now, each once.
record Grows (g h : ReadGuard) (ids : List String) : Type 0 where
  keeps : (x : String) → mem x g.visited ≡ true → mem x h.visited ≡ true
  fresh : (x : String) → mem x ids ≡ true → (mem x g.visited ≡ false) × (mem x h.visited ≡ true)
  once : Distinct ids
  room : length g.visited + length ids ≤ length h.visited
  reports : ReportsOnce g → ReportsOnce h

Grows-none :
    (g h : ReadGuard) → h.visited ≡ g.visited → (ReportsOnce g → ReportsOnce h) → Grows g h []
unfolding mem
Grows-none g h v r = record {
  keeps = λ x m. ap (mem x) v ∙ m;
  fresh = λ x m. absurd (cc (m));
  once = tt;
  room = subst (λ xs. length g.visited + 0 ≤ length xs) (sym v) (omega arith);
  reports = r;
}

Grows-append :
    (g h k : ReadGuard) (xs ys : List String) → Grows g h xs → Grows h k ys → Grows g k (xs ++ ys)
Grows-append g h k xs ys a b = record {
  keeps = λ x m. b.keeps x (a.keeps x m);
  fresh = λ x m. elim (Bool-cases (mem x xs)) [
    | inl t ↦ let p = a.fresh x t in (p.0, b.keeps x p.1)
    | inr f ↦
        let p = b.fresh x (ground (arith, mem-append x xs ys, m, f)) in
        (ground (arith, a.keeps x, p.0), p.1)
  ];
  once = append-Distinct xs ys a.once b.once (λ x m. elim (Bool-cases (mem x ys)) [
    | inl t ↦ absurd (cc ((a.fresh x m).1, (b.fresh x t).0))
    | inr f ↦ f
  ]);
  room = omega (arith, a.room, b.room, length-append xs ys);
  reports = λ r. b.reports (a.reports r);
}

-- As many ids are visited as counted at most, and no more than allowed.
abbrev Counted : Limits → ReadGuard → Type 0
Counted l g = (length g.visited ≤ g.count) × (length g.visited ≤ l.nodes)

Counted-Same : (l : Limits) (g h : ReadGuard) → SameVisits g h → Counted l g → Counted l h
Counted-Same l g h (v, c) (a, b) = (
  subst (λ n. length h.visited ≤ n) (sym c) (subst (λ xs. length xs ≤ g.count) (sym v) a),
  subst (λ xs. length xs ≤ l.nodes) (sym v) b,
)

-- What one read does: the guard stays counted, and grows by the ids returned.
abbrev Reads : Limits → ReadGuard → ReadGuard → List String → Type 0
Reads l g h ids = Counted l g → Counted l h × Grows g h ids

Reads-none : (l : Limits) (g h : ReadGuard) → Notes g h → Reads l g h []
Reads-none l g h n c = (Counted-Same l g h n.0 c, Grows-none g h n.0.0 n.1)

trip-Reads : (l : Limits) (g : ReadGuard) (reason : ReadGuardTrip) → Reads l g (trip g reason) []
trip-Reads l g reason =
    Reads-none l g (trip g reason) (trip-SameVisits g reason, trip-ReportsOnce g reason)

read_children-Reads :
    (l : Limits) (f : String → ReadGuard → Option Node × ReadGuard) (ids : List String)
    (g : ReadGuard)
    → ((id : String) (h : ReadGuard) → Reads l h (f id h).1 (ids_of (f id h).0))
    → let r = read_children f ids g in Reads l g r.1 (ids_of_all r.0)
unfolding read_children
read_children-Reads l f [] g h = Reads-none l g g ((refl, refl), λ r. r)
read_children-Reads l f (id ∷ ids) g h =
    let rest = read_children f ids (f id g).1 in
    one (f id g).0 (f id g).1 rest.0 rest.1 (h id g) (read_children-Reads l f ids (f id g).1 h)
  where
    one :
        (o : Option Node) (k : ReadGuard) (ns : List Node) (e : ReadGuard)
        → Reads l g k (ids_of o)
        → Reads l k e (ids_of_all ns)
        → Reads l g e (ids_of_all (elim o [ none ↦ ns | some child ↦ child ∷ ns ]))
    one none k ns e a b c =
        let p = a c in let q = b p.0 in (q.0, Grows-append g k e [] (ids_of_all ns) p.1 q.1)
    one (some n) k ns e a b c =
        let p = a c in
        let q = b p.0 in (q.0, Grows-append g k e (ids_of (some n)) (ids_of_all ns) p.1 q.1)

length-add : (k : String) (xs : List String) → mem k xs ≡ false → length (add k xs) ≡ length xs + 1
unfolding add
length-add k xs h = rw h (length-append xs (k ∷ []))

-- A node that is entered, with the ids that its children add.
Grows-enter :
    (id : String) (g e h : ReadGuard) (ids : List String)
    → mem id g.visited ≡ false
    → e.visited ≡ add id g.visited
    → (ReportsOnce g → ReportsOnce e)
    → Grows e h ids
    → Grows g h (id ∷ ids)
unfolding mem
Grows-enter id g e h ids new v r a = record {
  keeps = λ x m. a.keeps x (before x m);
  fresh = λ x m. elim (Bool-cases (mem x ids)) [
    | inl t ↦ let p = a.fresh x t in (after x p.0, p.1)
    | inr f ↦
        let same : id ≡ x = (string_eq.same_key_iff id x).0 (ground (arith, m, f)) in
        subst (λ y. (mem y g.visited ≡ false) × (mem y h.visited ≡ true)) same
          (new, a.keeps id here)
  ];
  once = (
    elim (Bool-cases (mem id ids)) [ inl t ↦ absurd (cc ((a.fresh id t).0, here)) | inr f ↦ f ],
    a.once,
  );
  room = omega (arith, a.room, longer);
  reports = λ q. a.reports (r q);
}
  where
    at : (x : String) → mem x e.visited ≡ (id == x || mem x g.visited)
    at x = ap (mem x) v ∙ mem-add x id g.visited

    before : (x : String) → mem x g.visited ≡ true → mem x e.visited ≡ true
    before x m = ground (arith, at x, m)

    after : (x : String) → mem x e.visited ≡ false → mem x g.visited ≡ false
    after x m = ground (arith, at x, m)

    here : mem id e.visited ≡ true
    here = ground (arith, at id, beq_refl id)

    longer : length e.visited ≡ length g.visited + 1
    longer = ap length v ∙ length-add id g.visited new

link_children-Reads :
    (l : Limits) (f : String → ReadGuard → Option Node × ReadGuard) (id : String) (g e : ReadGuard)
    (s : Option Shallow)
    → ((c : String) (h : ReadGuard) → Reads l h (f c h).1 (ids_of (f c h).0))
    → mem id g.visited ≡ false
    → e.visited ≡ add id g.visited
    → (ReportsOnce g → ReportsOnce e)
    → HasId id s
    → Counted l e
    → let r = link_children f s e in Counted l r.1 × Grows g r.1 (ids_of r.0)
unfolding mem
link_children-Reads l f id g e none h new v r i c = (
  c,
  record {
    keeps = λ x m. ap (mem x) v ∙ ground (arith, mem-add x id g.visited, m);
    fresh = λ x m. absurd (cc (m));
    once = tt;
    room = omega (arith, ap length v, length-add id g.visited new);
    reports = r;
  },
)
link_children-Reads l f id g e (some (o, ids)) h new v r i c =
    let q = read_children-Reads l f ids e h c in
    let k = read_children f ids e in
    (
      q.0,
      subst (Grows g k.1) (sym (ids_of_children o k.0 ∙ ap (λ x. x ∷ ids_of_all k.0) i))
          (Grows-enter id g e k.1 (ids_of_all k.0) new v r q.1),
    )

module _ (l : Limits) (nodes : Dict String NodeMap) where
  enter-Reads :
      (f : String → ReadGuard → Option Node × ReadGuard) (id : String) (g : ReadGuard)
      → ((c : String) (h : ReadGuard) → Reads l h (f c h).1 (ids_of (f c h).0))
      → mem id g.visited ≡ false
      → let r = enter l nodes f id g in Reads l g r.1 (ids_of r.0)
  unfolding enter
  enter-Reads f id g h new c = elim (Bool-cases (ltb l.nodes (g.count + 1))) [
    | inl t ↦
        let counted = record g { count = g.count + 1 } in
        let same = trip-SameVisits counted too_many in
        rw t (
          Counted-Same l counted (trip counted too_many) same (omega (arith, c.0), c.1),
          Grows-none g (trip counted too_many) same.0 (trip-ReportsOnce counted too_many),
        )
    | inr ok ↦
        let counted = record g { count = g.count + 1 } in
        let entered = record counted { visited = add id g.visited } in
        let own = parse_node_own l.props nodes id entered in
        let p = parse_node_own-Notes l.props nodes id entered in
        let n = length-add id g.visited new in
        rw ok (
          link_children-Reads l f id g own.1 own.0 h new p.0.0.0 p.0.1 p.1 (
            Counted-Same l entered own.1 p.0.0 (omega (arith, n, c.0), ground (arith, n, c.0, ok))))
  ]

  still : (g : ReadGuard) → Reads l g g []
  still g = Reads-none l g g ((refl, refl), λ r. r)

  read_node-Reads :
      (levels : ℕ) (id : String) (g : ReadGuard)
      → let r = read_node l nodes levels id g in Reads l g r.1 (ids_of r.0)
  unfolding read_node
  read_node-Reads zero id g =
      if-both (λ (r : Option Node × ReadGuard). Reads l g r.1 (ids_of r.0)) g.tripped _ _
        (λ t. still g) (λ f. trip-Reads l g too_deep)
  read_node-Reads (suc levels) id g =
      if-both (λ (r : Option Node × ReadGuard). Reads l g r.1 (ids_of r.0)) g.tripped _ _
        (λ t. still g)
        (λ f.
          if-both (λ (r : Option Node × ReadGuard). Reads l g r.1 (ids_of r.0)) (mem id g.visited) _
            _ (λ t. trip-Reads l g cycle)
            (λ new. enter-Reads (read_node l nodes levels) id g (read_node-Reads levels) new))

  -- A read from the top level: each id once, no more than allowed, and each reason once.
  pub read_from_top-ids :
      (id : String)
      → let r = read_from_top l nodes id in
        Distinct (ids_of r.0) × (length (ids_of r.0) ≤ l.nodes) × ReportsOnce r.1
  unfolding read_from_top
  read_from_top-ids id =
      let r = read_node-Reads (l.depth + 1) id create_read_guard (omega arith, omega arith) in
      (r.1.once, omega (arith, r.1.room, r.0.1), r.1.reports (refl, tt))
