-- ===== src/LiveIr/Local.antt =====
-- The incremental write of a local save against the whole one.
use anvilkit_plugin_collab_y.Base.{
  ◌≡◌, refl, sym, ap, ◌∙◌, inl, inr, true, false, Option, none, some, List, [], ◌∷◌, map, In,
  String, string_eq, arith, if◌then◌else◌, if-both, Bool-cases, Option-cases,
}
use anvilkit_plugin_collab_y.Base.Dict.{get, last_of, get-put, get-del, get-put_all}
use anvilkit_plugin_collab_y.Base.IdSet.{mem}
use anvilkit_plugin_collab_y.Ir.{Own, Node, PageIr, own, node_id, walk}
use anvilkit_plugin_collab_y.NativeTree.Diff.{
  LocalDiff, nodes_by_id, diff_ir_nodes_for_local_save, altered, content_changed,
}
use anvilkit_plugin_collab_y.NativeTree.Diff.Laws.{diff_by_id, kids_differ-eq, get-nodes_by_id-In}
use anvilkit_plugin_collab_y.NativeTree.Diff.Baseline.{diff-ChangedOnce}
use anvilkit_plugin_collab_y.NativeTree.Write.Lookup.{last_of-get}
use anvilkit_plugin_collab_y.LiveIr.{
  CachedNode, LiveIr, cached_node, cache_node, drop_node, drop_nodes, cache_nodes, seed_from_ir,
  set_local_changed,
}
use anvilkit_plugin_collab_y.LiveIr.Lockstep.{
  Lockstep, seed_from_ir-Lockstep, cache_nodes-Lockstep, drop_nodes-Lockstep,
}

module _ (hash_node : Own → String) where
  abbrev pub cached : Option Node → Option CachedNode → Option CachedNode
  cached none old = old
  cached (some n) old = some (cached_node hash_node n)

  get-drop_nodes :
      (k : String) (ids : List String) (s : LiveIr)
      → get k (drop_nodes hash_node s ids).cache ≡ (if mem k ids then none else get k s.cache)
  unfolding drop_nodes drop_node mem
  get-drop_nodes k [] s = refl
  get-drop_nodes k (id ∷ ids) s = ground (
    arith,
    get-drop_nodes k ids (drop_node hash_node s id),
    get-del k id s.cache,
    string_eq.same_key_iff id k,
  )

  get-cache_nodes :
      (k : String) (es : List (String × Node)) (s : LiveIr)
      → get k (cache_nodes hash_node s es).cache ≡ cached (last_of k es) (get k s.cache)
  unfolding cache_nodes cache_node last_of
  get-cache_nodes k [] s = refl
  get-cache_nodes k ((id, n) ∷ es) s = ground (
    arith,
    get-cache_nodes k es (cache_node hash_node s id (cached_node hash_node n)),
    get-put k id (cached_node hash_node n) s.cache,
    string_eq.same_key_iff id k,
  )

  -- A seeded cache has the nodes of the document, by id.
  pub get-seed_from_ir :
      (s : LiveIr) (ir : PageIr) (k : String)
      → get k (seed_from_ir hash_node s ir).cache ≡ cached (get k (nodes_by_id ir.root)) none
  unfolding seed_from_ir nodes_by_id get
  get-seed_from_ir s ir k = ground (
    arith,
    get-cache_nodes k (map (λ n. (node_id n, n)) (walk ir.root)) (record s {
      cache = [];
      hashes = [];
      root_id = some (node_id ir.root);
      assets = ir.assets;
      metadata = ir.metadata;
    }),
    get-put_all k (map (λ n. (node_id n, n)) (walk ir.root)) [],
  )

  -- The cache holds a document: its nodes by id, their hashes, its root id and what stands beside
  -- the root.
  abbrev pub Mirrors : LiveIr → PageIr → Type 0
  Mirrors s ir =
      ((k : String) → get k s.cache ≡ cached (get k (nodes_by_id ir.root)) none)
      × Lockstep s
      × (s.root_id ≡ some (node_id ir.root))
      × (s.assets ≡ ir.assets)
      × (s.metadata ≡ ir.metadata)
      × (s.seeded ≡ true)

  -- What the loops leave alone.
  abbrev Beside : LiveIr → LiveIr → Type 0
  Beside s t =
      (s.root_id ≡ t.root_id)
      × (s.assets ≡ t.assets)
      × (s.metadata ≡ t.metadata)
      × (s.seeded ≡ t.seeded)

  drop_nodes-Beside : (ids : List String) (s : LiveIr) → Beside (drop_nodes hash_node s ids) s
  unfolding drop_nodes drop_node
  drop_nodes-Beside [] s = (refl, refl, refl, refl)
  drop_nodes-Beside (id ∷ ids) s = drop_nodes-Beside ids (drop_node hash_node s id)

  cache_nodes-Beside :
      (es : List (String × Node)) (s : LiveIr) → Beside (cache_nodes hash_node s es) s
  unfolding cache_nodes cache_node
  cache_nodes-Beside [] s = (refl, refl, refl, refl)
  cache_nodes-Beside ((id, n) ∷ es) s =
      cache_nodes-Beside es (cache_node hash_node s id (cached_node hash_node n))

  -- A seeded cache holds the document.
  pub seed_from_ir-Mirrors : (s : LiveIr) (ir : PageIr) → Mirrors (seed_from_ir hash_node s ir) ir
  unfolding seed_from_ir
  seed_from_ir-Mirrors s ir =
      let b = cache_nodes-Beside (map (λ n. (node_id n, n)) (walk ir.root)) _ in
      (get-seed_from_ir s ir, seed_from_ir-Lockstep hash_node s ir, b.0, b.1, b.2, refl)

  -- On these documents a hash tells two contents of one node apart.
  abbrev pub NoCollision : PageIr → PageIr → Type 0
  NoCollision prev next =
      (n p : Node)
      → In n (walk next.root)
      → In p (walk prev.root)
      → node_id n ≡ node_id p
      → hash_node (own n) ≡ hash_node (own p)
      → own n ≡ own p

  module _ (live : LiveIr) (prev next : PageIr) (holds : Mirrors live prev)
      (same_root : node_id prev.root ≡ node_id next.root)
      (no_collision : NoCollision prev next) where
    abbrev local : LocalDiff
    local = diff_ir_nodes_for_local_save hash_node (some live.hashes) (some prev) next

    -- The cached hash is that of the previous document's node.
    hash_of_live :
        (k : String) (p : Node)
        → get k (nodes_by_id prev.root) ≡ some p
        → get k live.hashes ≡ some (hash_node (own p))
    unfolding Lockstep cached_node
    hash_of_live k p e = holds.1 k ∙ rw (holds.0 k, e) refl

    -- A node that the save leaves out is cached as it stands in the next document.
    kept :
        (k : String) (n p : Node)
        → get k (nodes_by_id next.root) ≡ some n
        → get k (nodes_by_id prev.root) ≡ some p
        → altered hash_node (some live.hashes) (some p) n ≡ false
        → cached_node hash_node n ≡ cached_node hash_node p
    unfolding altered content_changed cached_node
    kept k n p e f a =
        let (hn, kn) = get-nodes_by_id-In next.root k n e in
        let (hp, kp) = get-nodes_by_id-In prev.root k p f in
        let h = hash_of_live (node_id n) p (ap (λ j. get j (nodes_by_id prev.root)) kn ∙ f) in
        let kids = kids_differ-eq n p (ground arith) in
        let eqh : hash_node (own n) ≡ hash_node (own p) =
          ground (arith, h, string_eq.same_key_iff (hash_node (own n)) (hash_node (own p))) in
        let same = no_collision n p hn hp (kn ∙ sym kp) eqh in cc

    rest : LiveIr
    rest = record live {
      root_id = some (node_id next.root);
      assets = next.assets;
      metadata = next.metadata;
    }

    get-rest :
        (k : String)
        → get k
            (cache_nodes hash_node (drop_nodes hash_node rest local.removed) local.changed).cache
          ≡ cached (get k (nodes_by_id next.root)) none
    unfolding rest altered
    get-rest k =
        let d = diff_by_id hash_node (some live.hashes) prev next k same_root in
        let distinct = diff-ChangedOnce hash_node (some live.hashes) prev next in
        rw
          (
            get-cache_nodes k local.changed (drop_nodes hash_node rest local.removed),
            last_of-get k local.changed distinct,
            get-drop_nodes k local.removed rest,
            holds.0 k,
            d.1,
            d.2,
          )
          (elim (Option-cases (get k (nodes_by_id next.root))) [
            | inl e ↦ elim (Option-cases (get k (nodes_by_id prev.root))) [
              | inl f ↦ rw (e, f) refl
              | inr (p, f) ↦ rw (e, f) refl
            ]
            | inr (n, e) ↦ elim (Option-cases (get k (nodes_by_id prev.root))) [
              | inl f ↦ rw (e, f) refl
              | inr (p, f) ↦ elim (Bool-cases (altered hash_node (some live.hashes) (some p) n)) [
                | inl t ↦ rw (e, f, t) refl
                | inr a ↦ rw (e, f, a) (ap some (sym (kept k n p e f a)))
              ]
            ]
          ])

    -- A save that writes the changed nodes alone turns a cache of the previous document into one
    -- of the next, as a walk of the whole would: when the root id stays and no hash of a node
    -- collides with that of its previous content.
    pub set_local_changed-Mirrors :
        Mirrors (set_local_changed hash_node live next local.changed local.removed) next
    unfolding set_local_changed rest Lockstep
    set_local_changed-Mirrors =
        let b = cache_nodes-Beside local.changed (drop_nodes hash_node rest local.removed) in
        let c = drop_nodes-Beside local.removed rest in
        if-both (λ t. Mirrors t next) live.seeded _ _
          (λ t. (
            get-rest,
            cache_nodes-Lockstep hash_node local.changed _
                (drop_nodes-Lockstep hash_node local.removed rest holds.1),
            b.0 ∙ c.0,
            b.1 ∙ c.1,
            b.2 ∙ c.2,
            b.3 ∙ c.3 ∙ holds.5,
          ))
          (λ f. seed_from_ir-Mirrors live next)
