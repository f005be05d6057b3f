-- ===== src/NativeTree/Diff/Laws.antt =====
-- What the classification of a local save contains, by id.
use anvilkit_plugin_collab_y.Base.{
  ◌≡◌, refl, sym, ap, ap₂, subst, ◌⊎◌, ◌∙◌, false, not, ◌&&◌, ◌||◌, Option, none, some, List, [],
  ◌∷◌, map, String, ◌==◌, Keyed, string_eq, beq-cases, if◌then◌else◌, arith, Bool-cases, In, inl,
  inr, ◌≢◌, In-map, Option-cases,
}
use anvilkit_plugin_collab_y.Base.Dict.{
  Dict, keys, get, has, get-put, get-put_all, last_of-In, last_of-ne-none, mem-keys,
  put_all-Distinct, In-put, In-put_all,
}
use anvilkit_plugin_collab_y.Base.IdSet.{mem, add, mem-add, Distinct, Distinct-injective}
use anvilkit_plugin_collab_y.Ir.{
  Own, Node, PageIr, node_id, walk, option_json_eq, option_string_eq, props_eq, ids_eq,
}
use anvilkit_plugin_collab_y.NativeTree.Diff.{
  entries, nodes_by_id, child_ids, kids_differ, own_differs, LocalDiff, altered, classify,
  classify_all, missing, diff_ir_nodes_for_local_save,
}

-- Every id stands once in the tree.
abbrev pub UniqueIds : Node → Type 0
UniqueIds t = Distinct (map node_id (walk t))

-- An entry that a lookup finds is a node of the tree.
In-entries :
    (id : String) (n : Node) (ns : List Node) → In (id, n) (entries ns) → In n ns × (node_id n ≡ id)
In-entries id n [] h = absurd h
In-entries id n (x ∷ ns) (inl e) =
    (inl (ap (λ p. p.1) e), ap node_id (sym (ap (λ p. p.1) e)) ∙ ap (λ p. p.0) e)
In-entries id n (x ∷ ns) (inr h) = let r = In-entries id n ns h in (inr r.0, r.1)

pub get-nodes_by_id-In :
    (t : Node) (id : String) (n : Node)
    → get id (nodes_by_id t) ≡ some n
    → In n (walk t) × (node_id n ≡ id)
unfolding nodes_by_id get
get-nodes_by_id-In t id n h =
    In-entries id n (walk t)
      (last_of-In id n (entries (walk t)) (ground (arith, get-put_all id (entries (walk t)) [])))

has-nodes_by_id : (t n : Node) → In n (walk t) → get (node_id n) (nodes_by_id t) ≢ none
unfolding nodes_by_id get
has-nodes_by_id t n h e =
    last_of-ne-none (node_id n) n (entries (walk t)) (In-map (λ m. (node_id m, m)) n (walk t) h)
      (ground (arith, get-put_all (node_id n) (entries (walk t)) []))

pub get-nodes_by_id :
    (t n : Node) → UniqueIds t → In n (walk t) → get (node_id n) (nodes_by_id t) ≡ some n
get-nodes_by_id t n u h = elim (Option-cases (get (node_id n) (nodes_by_id t))) [
  | inl e ↦ absurd (has-nodes_by_id t n h e)
  | inr (m, e) ↦
      let r = get-nodes_by_id-In t (node_id n) m e in
      e ∙ ap some (Distinct-injective node_id m n (walk t) u r.0 h r.1)
]

In-nodes_by_id :
    (t : Node) (id : String) (n : Node)
    → In (id, n) (nodes_by_id t)
    → In n (walk t) × (node_id n ≡ id)
unfolding nodes_by_id
In-nodes_by_id t id n h = elim (In-put_all id n (entries (walk t)) [] h) [
  | inl a ↦ In-entries id n (walk t) a
  | inr b ↦ absurd b
]

nodes_by_id-Distinct : (t : Node) → Distinct (keys (nodes_by_id t))
unfolding nodes_by_id
nodes_by_id-Distinct t = put_all-Distinct (entries (walk t)) [] tt

-- `removed` holds the ids of the previous document that the next one lacks.
mem-missing :
    (k : String) (next : Dict String Node) (ids out : List String)
    → mem k (missing next ids out) ≡ ((mem k ids && not (has k next)) || mem k out)
unfolding missing mem
mem-missing k next [] out = refl
mem-missing k next (id ∷ ids) out = elim (beq-cases id k) [
  | inl (t, e) ↦ ground (
    arith,
    subst (λ x. has x next ≡ has k next) (sym e) refl,
    mem-missing k next ids out,
    mem-missing k next ids (add id out),
    mem-add k id out,
  )
  | inr (f, e) ↦
      ground
        (arith, mem-missing k next ids out, mem-missing k next ids (add id out), mem-add k id out)
]

mem_nil : (k : String) → mem k [] ≡ false
unfolding mem
mem_nil k = refl

module _ {H : Type 0} ⦃eh : Keyed H⦄ (hash : Own → H) (hashes : Option (Dict String H)) where
  classify_changed :
      (prev : Dict String Node) (d : LocalDiff) (id k : String) (n : Node)
      → get k (classify hash hashes prev d id n).changed
        ≡ (if id == k && altered hash hashes (get id prev) n then some n else get k d.changed)
  unfolding classify
  classify_changed prev d id k n = ground (arith, get-put k id n d.changed)

  classify_rest :
      (prev : Dict String Node) (d : LocalDiff) (id : String) (n : Node)
      → ((classify hash hashes prev d id n).removed ≡ d.removed)
        × ((classify hash hashes prev d id n).structural ≡ d.structural)
  unfolding classify
  classify_rest prev d id n = ground arith

  classify_all_rest :
      (prev : Dict String Node) (d : LocalDiff) (es : Dict String Node)
      → ((classify_all hash hashes prev d es).removed ≡ d.removed)
        × ((classify_all hash hashes prev d es).structural ≡ d.structural)
  unfolding classify_all
  classify_all_rest prev d [] = (refl, refl)
  classify_all_rest prev d ((id, n) ∷ es) =
      let next = classify hash hashes prev d id n in
      let r = classify_all_rest prev next es in
      let q = classify_rest prev d id n in (r.0 ∙ q.0, r.1 ∙ q.1)

  -- What a loop over `next` adds under a key: the node there, if it is new or altered.
  abbrev pub picked : Option Node → Option Node → Option Node → Option Node
  picked before old none = old
  picked before old (some n) = if altered hash hashes before n then some n else old

  classify_all_changed :
      (prev : Dict String Node) (d : LocalDiff) (es : Dict String Node) (k : String)
      → Distinct (keys es)
      → get k (classify_all hash hashes prev d es).changed
        ≡ picked (get k prev) (get k d.changed) (get k es)
  unfolding classify_all get mem
  classify_all_changed prev d [] k u = refl
  classify_all_changed prev d ((id, n) ∷ es) k u =
      let ih = classify_all_changed prev (classify hash hashes prev d id n) es k u.1 in
      elim (beq-cases id k) [
        | inl (t, e) ↦
            rw (ih, classify_changed prev d id k n, t)
              (subst
                (λ x.
                  picked (get x prev)
                    (if altered hash hashes (get id prev) n then some n else get x d.changed)
                    (get x es)
                  ≡ picked (get x prev) (get x d.changed) (some n))
                e (rw (absent es id u.0)))
        | inr (f, e) ↦ rw (ih, classify_changed prev d id k n, f)
      ]
    where
      absent : (es : Dict String Node) (id : String) → mem id (keys es) ≡ false → get id es ≡ none
      absent es id h = ground (arith, mem-keys id es, h)

  classify-In :
      (prev : Dict String Node) (d : LocalDiff) (id k : String) (n m : Node)
      → In (k, m) (classify hash hashes prev d id n).changed
      → ((id ≡ k) × (n ≡ m)) ⊎ In (k, m) d.changed
  unfolding classify
  classify-In prev d id k n m h = ground (arith, In-put k id m n d.changed)

  classify_all-In :
      (prev : Dict String Node) (d : LocalDiff) (es : Dict String Node) (k : String) (m : Node)
      → In (k, m) (classify_all hash hashes prev d es).changed
      → In (k, m) es ⊎ In (k, m) d.changed
  unfolding classify_all
  classify_all-In prev d [] k m h = inr h
  classify_all-In prev d ((id, n) ∷ es) k m h =
      elim (classify_all-In prev (classify hash hashes prev d id n) es k m h) [
        | inl a ↦ inl (inr a)
        | inr b ↦ elim (classify-In prev d id k n m b) [
          | inl (p, q) ↦ inl (inl (ap₂ (λ x y. (x, y)) p q))
          | inr c ↦ inr c
        ]
      ]

  -- What a save lists as changed are nodes of the next document, each under its own id.
  pub In-changed :
      (prev next : PageIr) (k : String) (m : Node)
      → In (k, m) (diff_ir_nodes_for_local_save hash hashes (some prev) next).changed
      → In m (walk next.root) × (node_id m ≡ k)
  unfolding diff_ir_nodes_for_local_save
  In-changed prev next k m h = elim (Bool-cases (node_id prev.root == node_id next.root)) [
    | inl t ↦ elim (classify_all-In _ _ (nodes_by_id next.root) k m (rw t at h)) [
      | inl a ↦ In-nodes_by_id next.root k m a
      | inr b ↦ absurd b
    ]
    | inr f ↦ absurd (rw f at h)
  ]

  -- A save that keeps the root id is not structural; it lists under each id the next node that is
  -- new or altered, and as removed exactly the ids that only the previous document has.
  pub diff_by_id :
      (prev next : PageIr) (k : String)
      → node_id prev.root ≡ node_id next.root
      → let d = diff_ir_nodes_for_local_save hash hashes (some prev) next in
        (d.structural ≡ false)
        × (get k d.changed
            ≡ picked (get k (nodes_by_id prev.root)) none (get k (nodes_by_id next.root)))
        × (mem k d.removed ≡ (has k (nodes_by_id prev.root) && not (has k (nodes_by_id next.root))))
  unfolding diff_ir_nodes_for_local_save get
  diff_by_id prev next k e =
      let p = nodes_by_id prev.root in
      let q = nodes_by_id next.root in
      rw ((string_eq.same_key_iff (node_id prev.root) (node_id next.root)).1 e) (
        (classify_all_rest p _ q).1,
        classify_all_changed p _ q k (nodes_by_id-Distinct next.root),
        ap (mem k) (classify_all_rest p _ q).0
            ∙ mem-missing k q (keys p) []
            ∙ ground (arith, mem-keys k p, mem_nil k),
      )

-- Where the exact comparison sees no difference, the own fields are equal.
pub own_differs-eq : (a b : Own) → a.id ≡ b.id → own_differs a b ≡ false → a ≡ b
unfolding own_differs
own_differs-eq a b i h = ground (
  arith,
  (string_eq.same_key_iff a.kind b.kind).0,
  (option_string_eq.same_key_iff a.slot b.slot).0,
  (option_string_eq.same_key_iff a.slot_kind b.slot_kind).0,
  (props_eq.same_key_iff a.props b.props).0,
  (option_json_eq.same_key_iff a.assets b.assets).0,
  (option_json_eq.same_key_iff a.meta b.meta).0,
)

pub kids_differ-eq : (n p : Node) → kids_differ n p ≡ false → child_ids n ≡ child_ids p
unfolding kids_differ
kids_differ-eq n p h = (ids_eq.same_key_iff (child_ids n) (child_ids p)).0 (ground arith)
