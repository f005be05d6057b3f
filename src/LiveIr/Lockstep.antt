-- ===== src/LiveIr/Lockstep.antt =====
-- The two maps of the cache, and what a loop of writes leaves in them.
use anvilkit_plugin_collab_y.Base.{
  ◌≡◌, refl, inl, inr, Bool, not, ◌||◌, Option, none, some, List, [], ◌∷◌, map, String, string_eq,
  arith, if-both, Bool-cases, Option-cases,
}
use anvilkit_plugin_collab_y.Base.Dict.{Dict, get, get-put, get-del}
use anvilkit_plugin_collab_y.Base.IdSet.{mem}
use anvilkit_plugin_collab_y.Ir.{Own, Node, PageIr, node_id, walk}
use anvilkit_plugin_collab_y.LiveIr.{
  CachedNode, LiveIr, DerivedRelink, RootMeta, cached_node, cache_node, drop_node, drop_nodes,
  cache_nodes, seed_from_ir, set_local_changed, full_rebuild, read_root_meta, reread,
  apply_remote_changed_nodes, ids_to_read, removed_of,
}

-- The hash map has under each id the hash that the cached node has.
unfoldable pub Lockstep : LiveIr → Type 0
Lockstep s =
    (k : String) → get k s.hashes ≡ elim (get k s.cache) [ none ↦ none | some c ↦ some c.hash ]

module _ (hash_node : Own → String) where
  cache_node-Lockstep :
      (s : LiveIr) (id : String) (c : CachedNode)
      → Lockstep s
      → Lockstep (cache_node hash_node s id c)
  unfolding Lockstep cache_node
  cache_node-Lockstep s id c h k =
      ground (arith, get-put k id c s.cache, get-put k id c.hash s.hashes, h k)

  drop_node-Lockstep : (s : LiveIr) (id : String) → Lockstep s → Lockstep (drop_node hash_node s id)
  unfolding Lockstep drop_node
  drop_node-Lockstep s id h k = ground (arith, get-del k id s.cache, get-del k id s.hashes, h k)

  pub drop_nodes-Lockstep :
      (ids : List String) (s : LiveIr) → Lockstep s → Lockstep (drop_nodes hash_node s ids)
  unfolding drop_nodes
  drop_nodes-Lockstep [] s h = h
  drop_nodes-Lockstep (id ∷ ids) s h =
      drop_nodes-Lockstep ids (drop_node hash_node s id) (drop_node-Lockstep s id h)

  pub cache_nodes-Lockstep :
      (es : List (String × Node)) (s : LiveIr) → Lockstep s → Lockstep (cache_nodes hash_node s es)
  unfolding cache_nodes
  cache_nodes-Lockstep [] s h = h
  cache_nodes-Lockstep ((id, n) ∷ es) s h =
      cache_nodes-Lockstep es (cache_node hash_node s id (cached_node hash_node n))
        (cache_node-Lockstep s id (cached_node hash_node n) h)

  pub seed_from_ir-Lockstep : (s : LiveIr) (ir : PageIr) → Lockstep (seed_from_ir hash_node s ir)
  unfolding seed_from_ir Lockstep get
  seed_from_ir-Lockstep s ir k =
      cache_nodes-Lockstep (map (λ n. (node_id n, n)) (walk ir.root))
        (record s {
          cache = [];
          hashes = [];
          root_id = some (node_id ir.root);
          assets = ir.assets;
          metadata = ir.metadata;
        })
        (λ j. refl) k

  pub set_local_changed-Lockstep :
      (s : LiveIr) (ir : PageIr) (changed : Dict String Node) (removed : List String)
      → Lockstep s
      → Lockstep (set_local_changed hash_node s ir changed removed)
  unfolding set_local_changed Lockstep
  set_local_changed-Lockstep s ir changed removed h =
      if-both Lockstep s.seeded _ _
        (λ t. cache_nodes-Lockstep changed _ (
          drop_nodes-Lockstep removed
            (record s {
              root_id = some (node_id ir.root);
              assets = ir.assets;
              metadata = ir.metadata;
            })
            h))
        (λ f. seed_from_ir-Lockstep s ir)

  full_rebuild-Lockstep :
      (s : LiveIr) (whole : Option PageIr) → Lockstep s → Lockstep (full_rebuild hash_node s whole)
  unfolding full_rebuild
  full_rebuild-Lockstep s none h = h
  full_rebuild-Lockstep s (some ir) h = seed_from_ir-Lockstep s ir

  reread-Lockstep :
      (shallow : String → Option (Own × List String)) (removed ids : List String) (s : LiveIr)
      → Lockstep s
      → Lockstep (reread hash_node shallow removed ids s).0
  unfolding reread
  reread-Lockstep shallow removed [] s h = h
  reread-Lockstep shallow removed (id ∷ ids) s h = elim (Bool-cases (mem id removed)) [
    | inl t ↦
        rw t (
          reread-Lockstep shallow removed ids (drop_node hash_node s id)
            (drop_node-Lockstep s id h))
    | inr f ↦ elim (Option-cases (shallow id)) [
      | inl g ↦ rw (f, g) h
      | inr (r, g) ↦
          rw (f, g) (reread-Lockstep shallow removed ids _ (cache_node-Lockstep s id _ h))
    ]
  ]

  read_root_meta-Lockstep :
      (s : LiveIr) (root : RootMeta) → Lockstep s → Lockstep (read_root_meta hash_node s root)
  unfolding read_root_meta Lockstep
  read_root_meta-Lockstep s root h k = h k

  -- A batch of remote changes keeps the two maps in lock-step, also where a read fails halfway.
  pub apply_remote_changed_nodes-Lockstep :
      (root : RootMeta) (shallow : String → Option (Own × List String)) (whole : Option PageIr)
      (ids : List String) (structural : Bool) (relink : Option DerivedRelink) (s : LiveIr)
      → Lockstep s
      → Lockstep (apply_remote_changed_nodes hash_node root shallow whole ids structural relink s)
  unfolding apply_remote_changed_nodes
  apply_remote_changed_nodes-Lockstep root shallow whole ids structural relink s h =
      if-both Lockstep (structural || not s.seeded) _ _ (λ t. full_rebuild-Lockstep s whole h)
        (λ f.
          if-both Lockstep
            (reread hash_node shallow (removed_of relink) (ids_to_read ids relink)
              (read_root_meta hash_node s root)).1
            _ _ (λ t. drop_nodes-Lockstep (removed_of relink) _ again)
            (λ n. full_rebuild-Lockstep _ whole again))
    where
      again :
          Lockstep
            (reread hash_node shallow
              (removed_of relink)
              (ids_to_read ids relink)
              (read_root_meta hash_node s root)).0
      again =
          reread-Lockstep shallow (removed_of relink) (ids_to_read ids relink) _
            (read_root_meta-Lockstep s root h)
