-- ===== src/PayloadChain/Rebuild.antt =====
-- What `build` of src/utils/payload-chain.ts makes of a table that holds a document.
use anvilkit_plugin_collab_y.Base.{
  ℕ, zero, suc, ◌≡◌, refl, ap, ap₂, subst, ◌⊎◌, inl, inr, false, none, some, List, [], ◌∷◌, map,
  String, string_eq, ◌==◌, beq-cases, arith, All, In, In-append_left, In-append_right,
}
use anvilkit_plugin_collab_y.Base.Dict.{Dict, get}
use anvilkit_plugin_collab_y.Base.IdSet.{mem, Distinct, Distinct-injective}
use anvilkit_plugin_collab_y.Ir.{
  Own, Node, leaf, branch, Forest, end, more, own, node_id, trees, walk, walk_back, size,
}
use anvilkit_plugin_collab_y.Ir.Walks.{forest-trees, size-below}
use anvilkit_plugin_collab_y.NativeTree.Diff.{child_ids}
use anvilkit_plugin_collab_y.PayloadChain.{
  StoredNode, Result, ok, err, out_of_fuel, to_stored_node, from_stored_node, map_all, map_present,
  build_children, build,
}

-- No id of the path stands in a tree, and none stands below itself.
abbrev mutual
  pub Clear : List String → Node → Type 0
  Clear path (leaf o) = mem o.id path ≡ false
  Clear path (branch o f) = (mem o.id path ≡ false) × ClearAll (o.id ∷ path) f

  ClearAll : List String → Forest → Type 0
  ClearAll path end = Unit
  ClearAll path (more n f) = Clear path n × ClearAll path f

-- The result is this value, unless the fuel ran out.
abbrev Yields : {A : Type 0} → A → Result A → Type 0
Yields a r = (r ≡ ok a) ⊎ (r ≡ err out_of_fuel)

map_all-Yields :
    {A : Type 0} (f : String → Result A) (id : String) (ids : List String) (a : A) (as' : List A)
    → Yields a (f id)
    → Yields as' (map_all f ids)
    → Yields (a ∷ as') (map_all f (id ∷ ids))
unfolding map_all
map_all-Yields f id ids a as' h k = ground arith

branch-Yields :
    (below : String → Result Node) (o : Own) (f : Forest)
    → Yields (trees f) (map_all below (map node_id (trees f)))
    → Yields (branch o f) (build_children below (to_stored_node (branch o f)))
unfolding build_children to_stored_node map_present from_stored_node
branch-Yields below o f (inl e) = inl (rw (e, forest-trees f))
branch-Yields below o f (inr e) = inr (rw e)

module _ (nodes : Dict String StoredNode) where
  -- Every node of a tree is stored under its id.
  abbrev Stored : List Node → Type 0
  Stored ns = (n : Node) → In n ns → get (node_id n) nodes ≡ some (to_stored_node n)

  mutual
    unfolding build build_children to_stored_node from_stored_node map_present map_all trees walk

    pub build_node :
        (fuel : ℕ) (path : List String) (t : Node)
        → Clear path t
        → Stored (walk t)
        → Yields t (build nodes fuel path (node_id t))
    build_node zero path t c s = inr refl
    build_node (suc fuel) path (leaf o) c s = inl (rw (c, s (leaf o) (inl refl), build) refl)
    build_node (suc fuel) path (branch o f) c s =
        rw (c.0, s (branch o f) (inl refl), build)
          (branch-Yields (build nodes fuel (o.id ∷ path)) o f
            (build_forest fuel (o.id ∷ path) f c.1 (λ n h. s n (inr h))))

    build_forest :
        (fuel : ℕ) (path : List String) (f : Forest)
        → ClearAll path f
        → Stored (walk_back f)
        → Yields (trees f) (map_all (build nodes fuel path) (map node_id (trees f)))
    build_forest fuel path end c s = inl refl
    build_forest fuel path (more n f) c s =
        map_all-Yields (build nodes fuel path) (node_id n) (map node_id (trees f)) n (trees f)
          (build_node fuel path n c.0 (λ m h. s m (In-append_right m (walk_back f) (walk n) h)))
          (build_forest fuel path f c.1 (λ m h. s m (In-append_left m (walk_back f) (walk n) h)))

-- Ids that stand once in a list of nodes rule out a cycle in any tree over that list.
module _ (ns : List Node) (once : Distinct (map node_id ns)) where
  not_below :
      (o : Own) (f : Forest) (n : Node)
      → In (branch o f) ns
      → In n ns
      → In n (walk_back f)
      → (o.id == node_id n) ≡ false
  not_below o f n top sub h = elim (beq-cases o.id (node_id n)) [
    | inl (t, e) ↦
        let q = Distinct-injective node_id (branch o f) n ns once top sub e in
        absurd (omega (arith, size-below o f n h, ap size q))
    | inr (t, e) ↦ t
  ]

  mutual
    unfolding walk mem

    pub Clear-node :
        (path : List String) (t : Node)
        → ((n : Node) → In n (walk t) → In n ns)
        → ((n : Node) → In n (walk t) → mem (node_id n) path ≡ false)
        → Clear path t
    Clear-node path (leaf o) sub off = off (leaf o) (inl refl)
    Clear-node path (branch o f) sub off = (
      off (branch o f) (inl refl),
      ClearAll-forest (o.id ∷ path) f (λ n h. sub n (inr h))
          (λ n h. ground (
            arith,
            not_below o f n (sub (branch o f) (inl refl)) (sub n (inr h)) h,
            off n (inr h),
          )),
    )

    ClearAll-forest :
        (path : List String) (f : Forest)
        → ((n : Node) → In n (walk_back f) → In n ns)
        → ((n : Node) → In n (walk_back f) → mem (node_id n) path ≡ false)
        → ClearAll path f
    ClearAll-forest path end sub off = tt
    ClearAll-forest path (more n f) sub off = (
      Clear-node path n (λ m h. sub m (In-append_right m (walk_back f) (walk n) h))
          (λ m h. off m (In-append_right m (walk_back f) (walk n) h)),
      ClearAll-forest path f (λ m h. sub m (In-append_left m (walk_back f) (walk n) h))
          (λ m h. off m (In-append_left m (walk_back f) (walk n) h)),
    )

-- Nodes with an explicit empty `children` array, which the classification does not tell from
-- nodes without the key.
abbrev pub HasKids : Node → Type 0
HasKids (leaf o) = Unit
HasKids (branch o end) = ⊥
HasKids (branch o (more n f)) = Unit

-- No node of the tree carries an empty `children` array.
abbrev pub IsCanonical : Node → Type 0
IsCanonical t = All HasKids (walk t)

pub to_stored_node-eq :
    (n p : Node)
    → HasKids n
    → HasKids p
    → own n ≡ own p
    → child_ids n ≡ child_ids p
    → to_stored_node n ≡ to_stored_node p
unfolding to_stored_node trees
to_stored_node-eq (leaf o) (leaf q) hn hp e k = ap (λ x. record { content = x; child_ids = none }) e
to_stored_node-eq (leaf o) (branch q end) hn hp e k = absurd hp
to_stored_node-eq (leaf o) (branch q (more m g)) hn hp e k = absurd (cc)
to_stored_node-eq (branch o end) p hn hp e k = absurd hn
to_stored_node-eq (branch o (more m g)) (leaf q) hn hp e k = absurd (cc)
to_stored_node-eq (branch o (more m g)) (branch q end) hn hp e k = absurd hp
to_stored_node-eq (branch o (more m g)) (branch q (more m' g')) hn hp e k =
    ap₂ (λ x y. record { content = x; child_ids = some y }) e k

pub All-at {ℓ} : {A : Type 0} (P : A → Type ℓ) (xs : List A) (a : A) → All P xs → In a xs → P a
All-at P [] a h m = absurd m
All-at P (x ∷ xs) a h (inl e) = subst P e h.0
All-at P (x ∷ xs) a h (inr m) = All-at P xs a h.1 m
