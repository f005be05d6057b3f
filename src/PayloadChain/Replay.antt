-- ===== src/PayloadChain/Replay.antt =====
-- A delta built from the classification of a local save replays to the saved document.
use anvilkit_plugin_collab_y.Base.{
  suc, ◌≡◌, refl, sym, ap, ◌∙◌, subst, inl, inr, false, Option, none, some, List, [], ◌∷◌, map,
  String, string_eq, Keyed, length, arith, Bool-cases, Option-cases, if◌then◌else◌, In, In-map,
}
use anvilkit_plugin_collab_y.Base.Dict.{
  Dict, keys, values, get, get-put_all, get-del_all, last_of, last_of-In, last_of-ne-none,
  In-of_get, get-ne-none,
}
use anvilkit_plugin_collab_y.Base.IdSet.{mem, Distinct-injective}
use anvilkit_plugin_collab_y.Ir.{Own, Node, PageIr, own, node_id, walk, visit}
use anvilkit_plugin_collab_y.Ir.Walks.{visit_iff}
use anvilkit_plugin_collab_y.NativeTree.Diff.{
  nodes_by_id, content_changed, altered, LocalDiff, diff_ir_nodes_for_local_save,
}
use anvilkit_plugin_collab_y.NativeTree.Diff.Laws.{
  UniqueIds, get-nodes_by_id, get-nodes_by_id-In, diff_by_id, In-changed, picked, kids_differ-eq,
  own_differs-eq,
}
use anvilkit_plugin_collab_y.PayloadChain.{
  StoredNode, ok, to_stored_node, flatten_tree, stored_entries, overlay, apply_stored_delta,
}
use anvilkit_plugin_collab_y.PayloadChain.Total.{apply_stored_delta_total}
use anvilkit_plugin_collab_y.PayloadChain.Rebuild.{
  Clear, build_node, Clear-node, HasKids, IsCanonical, to_stored_node-eq, All-at,
}

abbrev keyed : {V : Type 0} → (Node → V) → List Node → List (String × V)
keyed g = map (λ m. (node_id m, g m))

In-keyed :
    {V : Type 0} (g : Node → V) (id : String) (v : V) (ns : List Node)
    → In {A = String × V} (id, v) (keyed g ns)
    → (m : Node) × In m ns × (node_id m ≡ id) × (g m ≡ v)
In-keyed g id v [] h = absurd h
In-keyed g id v (x ∷ ns) (inl e) = (x, inl refl, ap (λ p. p.0) e, ap (λ p. p.1) e)
In-keyed g id v (x ∷ ns) (inr h) = let (m, i, p, q) = In-keyed g id v ns h in (m, inr i, p, q)

-- A loop of `set` over keyed nodes leaves under an id what its node gives.
last_of-keyed :
    {V : Type 0} (g : Node → V) (ns : List Node) (n : Node)
    → In n ns
    → ((m : Node) → In m ns → node_id m ≡ node_id n → m ≡ n)
    → last_of (node_id n) (keyed g ns) ≡ some (g n)
last_of-keyed {V} g ns n h once = elim (Option-cases (last_of (node_id n) (keyed g ns))) [
  | inl e ↦ absurd (
      last_of-ne-none (node_id n) (g n) (keyed g ns)
        (In-map {B = String × V} (λ m. (node_id m, g m)) n ns h) e)
  | inr (v, e) ↦
      let (m, i, p, q) = In-keyed g (node_id n) v ns (last_of-In (node_id n) v (keyed g ns) e) in
      e ∙ ap some (sym q ∙ ap g (once m i p))
]

-- The changes of a delta, keyed as the replay keys them.
stored_entries-keyed :
    (ns : List Node) → stored_entries (map to_stored_node ns) ≡ keyed to_stored_node ns
unfolding to_stored_node
stored_entries-keyed [] = refl
stored_entries-keyed (n ∷ ns) = ap (◌∷◌ (node_id n, to_stored_node n)) (stored_entries-keyed ns)

In-values :
    (m : Node) (d : Dict String Node)
    → In m (values d)
    → (k : String) × In {A = String × Node} (k, m) d
In-values m [] h = absurd h
In-values m ((k, v) ∷ d) (inl e) = (k, inl (ap (λ x. (k, x)) e))
In-values m ((k, v) ∷ d) (inr h) = let (j, i) = In-values m d h in (j, inr i)

values-In :
    (k : String) (m : Node) (d : Dict String Node)
    → In {A = String × Node} (k, m) d
    → In m (values d)
values-In k m [] h = absurd h
values-In k m ((j, v) ∷ d) (inl e) = inl (ap (λ p. p.1) e)
values-In k m ((j, v) ∷ d) (inr h) = inr (values-In k m d h)

-- `own` of the base, by id.
get-flatten_tree :
    (t n : Node)
    → UniqueIds t
    → In n (walk t)
    → get (node_id n) (flatten_tree t) ≡ some (to_stored_node n)
unfolding flatten_tree
get-flatten_tree t n u h =
    let found =
      last_of-keyed to_stored_node (visit t) n ((visit_iff t n).0 h)
        (λ m i e. Distinct-injective node_id m n (walk t) u ((visit_iff t m).1 i) h e) in
    rw (get-put_all (node_id n) (keyed to_stored_node (visit t)) [], found)

module _ {H : Type 0} ⦃eh : Keyed H⦄ (hash : Own → H) (hashes : Option (Dict String H)) where
  -- On these two documents the comparison misses no change of a node's own fields. It holds
  -- without cached hashes, and with hashes that do not collide here.
  abbrev pub Detects : PageIr → PageIr → Type 0
  Detects prev next =
      (n p : Node)
      → In n (walk next.root)
      → In p (walk prev.root)
      → node_id n ≡ node_id p
      → content_changed hash hashes n p ≡ false
      → own n ≡ own p

  module _ (prev next : PageIr) (once : UniqueIds prev.root) (once' : UniqueIds next.root)
      (canonical : IsCanonical prev.root) (canonical' : IsCanonical next.root)
      (same_root : node_id prev.root ≡ node_id next.root) (detects : Detects prev next) where
    abbrev local : LocalDiff
    local = diff_ir_nodes_for_local_save hash hashes (some prev) next

    -- What the save lists is in the next document, under its own id.
    listed :
        (m : Node)
        → In m (values local.changed)
        → In m (walk next.root) × In {A = String × Node} (node_id m, m) local.changed
    listed m h =
        let (k, i) = In-values m local.changed h in
        let r = In-changed hash hashes prev next k m i in
        (r.0, subst (λ x. In {A = String × Node} (x, m) local.changed) (sym r.1) i)

    overlay_changed :
        (n : Node)
        → In n (walk next.root)
        → get (node_id n) local.changed ≡ some n
        → last_of (node_id n) (keyed to_stored_node (values local.changed))
          ≡ some (to_stored_node n)
    overlay_changed n h e =
        last_of-keyed to_stored_node (values local.changed) n
          (values-In (node_id n) n local.changed (In-of_get (node_id n) n local.changed e))
          (λ m i p. Distinct-injective node_id m n (walk next.root) once' (listed m i).0 h p)

    overlay_kept :
        (n : Node)
        → get (node_id n) local.changed ≡ none
        → last_of (node_id n) (keyed to_stored_node (values local.changed)) ≡ none
    overlay_kept n e =
        elim (Option-cases (last_of (node_id n) (keyed to_stored_node (values local.changed)))) [
          | inl q ↦ q
          | inr (v, q) ↦
              let (m, i, p, _) =
                In-keyed to_stored_node (node_id n) v (values local.changed)
                  (last_of-In (node_id n) v _ q) in
              absurd (
                get-ne-none (node_id n) m local.changed
                  (subst (λ x. In {A = String × Node} (x, m) local.changed) p (listed m i).1) e)
        ]

    -- A node that the save leaves out stands in the base with the same content and children.
    kept :
        (n p : Node)
        → In n (walk next.root)
        → get (node_id n) (nodes_by_id prev.root) ≡ some p
        → altered hash hashes (some p) n ≡ false
        → get (node_id n) (flatten_tree prev.root) ≡ some (to_stored_node n)
    unfolding altered
    kept n p h e a =
        let r = get-nodes_by_id-In prev.root (node_id n) p e in
        let same_own = detects n p h r.0 (sym r.1) (ground arith) in
        let same_kids = kids_differ-eq n p (ground arith) in
        let same_stored =
          to_stored_node-eq n p (All-at HasKids (walk next.root) n canonical' h)
            (All-at HasKids (walk prev.root) p canonical r.0) same_own same_kids in
        subst (λ x. get x (flatten_tree prev.root) ≡ some (to_stored_node n)) r.1
          (get-flatten_tree prev.root p once r.0 ∙ ap some (sym same_stored))

    here : (n : Node) → In n (walk next.root) → get (node_id n) (nodes_by_id next.root) ≡ some n
    here n h = get-nodes_by_id next.root n once' h

    changed_here :
        (n : Node)
        → In n (walk next.root)
        → get (node_id n) local.changed ≡ (
            if altered hash hashes (get (node_id n) (nodes_by_id prev.root)) n
            then some n
            else none)
    changed_here n h =
        let d = diff_by_id hash hashes prev next (node_id n) same_root in
        d.1 ∙ ap (picked hash hashes (get (node_id n) (nodes_by_id prev.root)) none) (here n h)

    not_removed : (n : Node) → In n (walk next.root) → mem (node_id n) local.removed ≡ false
    not_removed n h =
        let d = diff_by_id hash hashes prev next (node_id n) same_root in
        ground (arith, d.2, here n h)

    -- The overlay holds every node of the saved document, and nothing else under its id.
    get-overlay :
        (n : Node)
        → In n (walk next.root)
        → get
            (node_id n)
            (overlay prev.root (map to_stored_node (values local.changed)) local.removed)
          ≡ some (to_stored_node n)
    unfolding overlay altered
    get-overlay n h =
        rw (stored_entries-keyed (values local.changed), get-put_all (node_id n))
          (elim (Option-cases (get (node_id n) (nodes_by_id prev.root))) [
            | inl e ↦ rw (overlay_changed n h (changed_here n h ∙ rw (e, altered))) refl
            | inr (p, e) ↦ elim (Bool-cases (altered hash hashes (some p) n)) [
              | inl a ↦ rw (overlay_changed n h (changed_here n h ∙ rw (e, a))) refl
              | inr a ↦
                  rw
                    (
                      overlay_kept n (changed_here n h ∙ rw (e, a)),
                      get-del_all (node_id n),
                      not_removed n h,
                    )
                    (kept n p h e a)
            ]
          ])

    -- Replaying the delta of a save over the previous document gives the saved document: every
    -- node, in place, with its content. The save keeps the root id, ids stand once in each
    -- document, no node of either has an empty `children` array, and the classification misses
    -- no change of content.
    pub apply_stored_delta-save :
        next.version ≡ "1"
        → apply_stored_delta prev
            (map to_stored_node (values local.changed))
            local.removed
            next.assets
            next.metadata
          ≡ ok next
    unfolding apply_stored_delta mem
    apply_stored_delta-save v =
        elim (build_node nodes (suc (length (keys nodes))) [] next.root clear get-overlay) [
          | inl e ↦ rw (same_root, e) (ap (λ x. ok (record next { version = x })) (sym v))
          | inr e ↦ absurd (
              apply_stored_delta_total prev (map to_stored_node (values local.changed))
                local.removed next.assets next.metadata (rw (same_root, e)))
        ]
      where
        nodes : Dict String StoredNode
        nodes = overlay prev.root (map to_stored_node (values local.changed)) local.removed

        clear : Clear [] next.root
        clear = Clear-node (walk next.root) once' [] next.root (λ n h. h) (λ n h. refl)

-- Without cached hashes the comparison is exact.
pub Detects-exact :
    {H : Type 0} ⦃eh : Keyed H⦄ (hash : Own → H) (prev next : PageIr) → Detects hash none prev next
unfolding content_changed
Detects-exact hash prev next n p hn hp e c = own_differs-eq (own n) (own p) e c
