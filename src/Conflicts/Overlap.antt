-- ===== src/Conflicts/Overlap.antt =====
-- What `computeConflict` reports.
use anvilkit_plugin_collab_y.Base.{
  ◌≡◌, ◌≢◌, refl, ap, ◌∙◌, sym, ◌↔◌, inl, inr, subst, Bool, true, false, ◌&&◌, ◌||◌, Option, none,
  some, List, [], ◌∷◌, map, String, ◌==◌, string_eq, keep, arith, Bool-cases, Option-cases,
  beq-cases,
}
use anvilkit_plugin_collab_y.Base.Dict.{Dict, keys, get, mem-keys, put_all-Distinct}
use anvilkit_plugin_collab_y.Base.IdSet.{add_all, mem, mem-append, mem-add_all, Distinct}
use anvilkit_plugin_collab_y.Ir.{
  Json, Node, PageIr, node_id, children_key, walk, option_json_eq, ids_eq,
}
use anvilkit_plugin_collab_y.Conflicts.Detect.{
  ConflictField, Conflict, collect_nodes, props_of, prop_diverged, conflict_field,
  prop_conflict_fields, baseline_props, node_fields, node_reordered, child_order_conflict,
  same_child_order, order_of, some_field, baseline_at, compare_node, compare_all, baseline_nodes,
  compute_conflict,
}

mem-keep :
    (p : String → Bool) (k : String) (ks : List String) → mem k (keep p ks) ≡ (p k && mem k ks)
unfolding mem
mem-keep p k [] = ground arith
mem-keep p k (x ∷ ks) = elim (beq-cases x k) [
  | inl (t, q) ↦ ground (arith, mem-keep p k ks, ap p q, t)
  | inr (f, q) ↦ ground (arith, mem-keep p k ks, f)
]

map-prop :
    (id : String) (a b : Dict String Json) (ks : List String)
    → map (λ (f : ConflictField). f.prop) (map (conflict_field id a b) ks) ≡ ks
map-prop id a b [] = refl
map-prop id a b (k ∷ ks) = ap (◌∷◌ k) (map-prop id a b ks)

-- A prop on which two records differ is a key of one of them.
key_of_difference :
    (a b : Dict String Json) (k : String)
    → (get k a == get k b) ≡ false
    → (mem k (keys b) || mem k (keys a)) ≡ true
key_of_difference a b k h =
    ground (arith, mem-keys k a, mem-keys k b, option_json_eq.same_key_iff (get k a) (get k b))

-- The fields name exactly the props on which both diverged.
mem-prop_conflict_fields :
    (id : String) (a b : Dict String Json) (baseline : Option (Dict String Json)) (k : String)
    → mem k (map (λ (f : ConflictField). f.prop) (prop_conflict_fields id a b baseline))
      ≡ prop_diverged a b baseline k
unfolding prop_conflict_fields prop_diverged mem
mem-prop_conflict_fields id a b baseline k =
    ap (mem k) (map-prop id a b _)
    ∙ (mem-keep (prop_diverged a b baseline) k (add_all (keys b) (add_all (keys a) []))
        ∙ ground (
          arith,
          mem-add_all k (keys b) (add_all (keys a) []),
          mem-add_all k (keys a) [],
          key_of_difference a b k,
        ))

module _ (remotes : Dict String Node) (baselines : Option (Dict String Node)) where
  -- Whether a local node is reported.
  unfoldable pub reported : String → Node → Bool
  reported id local = elim (get id remotes) [
    | none ↦ false
    | some remote ↦
        some_field (node_fields id local remote (baseline_at baselines id))
        || node_reordered local remote (baseline_at baselines id)
  ]

  reported_in : String → List (String × Node) → Bool
  reported_in id [] = false
  reported_in id ((j, n) ∷ es) = (j == id && reported j n) || reported_in id es

  mem-compare_node :
      (id j : String) (n : Node) (found : Conflict)
      → mem id (compare_node remotes baselines j n found).node_ids
        ≡ (mem id found.node_ids || (j == id && reported j n))
  unfolding compare_node reported mem
  mem-compare_node id j n found = elim (Option-cases (get j remotes)) [
    | inl g ↦ rw (g, compare_node, reported) (ground arith)
    | inr (r, g) ↦
        rw (g, compare_node, reported) (ground (arith, mem-append id found.node_ids (j ∷ [])))
  ]

  mem-compare_all :
      (id : String) (es : List (String × Node)) (found : Conflict)
      → mem id (compare_all remotes baselines es found).node_ids
        ≡ (mem id found.node_ids || reported_in id es)
  unfolding compare_all reported_in
  mem-compare_all id [] found = ground arith
  mem-compare_all id ((j, n) ∷ es) found = ground (
    arith,
    mem-compare_all id es (compare_node remotes baselines j n found),
    mem-compare_node id j n found,
  )

  pub reported_at : String → Option Node → Bool
  reported_at id none = false
  reported_at id (some n) = reported id n

  reported_in_absent :
      (id : String) (es : List (String × Node))
      → mem id (keys es) ≡ false
      → reported_in id es ≡ false
  unfolding reported_in mem
  reported_in_absent id [] h = refl
  reported_in_absent id ((j, n) ∷ es) h = ground (arith, h, reported_in_absent id es)

  reported_in-get :
      (id : String) (es : List (String × Node))
      → Distinct (keys es)
      → reported_in id es ≡ reported_at id (get id es)
  unfolding reported_in reported_at get mem
  reported_in-get id [] d = refl
  reported_in-get id ((j, n) ∷ es) d = elim (beq-cases j id) [
    | inl (t, q) ↦ rw t (
        ground (
          arith,
          reported_in_absent id es (subst (λ i. mem i (keys es) ≡ false) q d.0),
          ap (λ i. reported i n) q,
        ))
    | inr (f, q) ↦ rw f (ground (arith, reported_in-get id es d.1))
  ]

-- A node id is reported exactly when the id is in both documents and its nodes conflict.
pub mem-node_ids :
    (baseline : Option PageIr) (local remote : PageIr) (id : String)
    → mem id (compute_conflict baseline local remote).node_ids
      ≡ reported_at
          (collect_nodes remote.root)
          (baseline_nodes baseline)
          id
          (get id (collect_nodes local.root))
unfolding compute_conflict mem collect_nodes
mem-node_ids baseline local remote id =
    mem-compare_all (collect_nodes remote.root) (baseline_nodes baseline) id
      (collect_nodes local.root) _
    ∙ reported_in-get (collect_nodes remote.root) (baseline_nodes baseline) id
        (collect_nodes local.root)
        (put_all-Distinct (map (λ n. (node_id n, n)) (walk local.root)) [] tt)

some_field-mem :
    (fs : List ConflictField) (k : String)
    → mem k (map (λ (f : ConflictField). f.prop) fs) ≡ true
    → some_field fs ≡ true
unfolding mem
some_field-mem [] k h = absurd (cc (h))
some_field-mem (f ∷ fs) k h = refl

some_field-prop :
    (fs : List ConflictField)
    → some_field fs ≡ true
    → (k : String) × (mem k (map (λ (f : ConflictField). f.prop) fs) ≡ true)
unfolding mem
some_field-prop [] h = absurd (cc (h))
some_field-prop (f ∷ fs) h = (f.prop, ground (arith, string_eq.same_key_iff f.prop f.prop))

-- Two values differ and, where there was one before, neither is still that.
abbrev pub Apart : {A : Type 0} → A → A → Option A → Type 0
Apart a b none = a ≢ b
Apart a b (some base) = (a ≢ b) × (a ≢ base) × (b ≢ base)

-- What the baseline had: a prop's value if it has the node, and the ids of the children if the
-- node has a children array there.
abbrev value_at : String → Option Node → Option (Option Json)
value_at k none = none
value_at k (some n) = some (get k (props_of n))

abbrev ids_before : Option (List Node) → Option (List String)
ids_before none = none
ids_before (some cs) = some (map node_id cs)

abbrev pub order_at : Option Node → Option (List String)
order_at none = none
order_at (some n) = ids_before (children_key n)

-- Two nodes of one id, and the baseline's node if it has one, conflict: some prop is apart, or the
-- order of the children.
pub data Overlaps (local remote : Node) (baseline : Option Node) : Type 0 where
  both_set :
      (k : String)
      → Apart (get k (props_of local)) (get k (props_of remote)) (value_at k baseline)
      → Overlaps local remote baseline
  both_moved :
      Apart (order_of (children_key local)) (order_of (children_key remote)) (order_at baseline)
      → Overlaps local remote baseline

prop_diverged-Apart :
    (a b : Dict String Json) (o : Option Node) (k : String)
    → (prop_diverged a b (baseline_props o) k ≡ true) ↔ Apart (get k a) (get k b) (value_at k o)
unfolding prop_diverged
prop_diverged-Apart a b none k =
    let e = option_json_eq.same_key_iff (get k a) (get k b) in
    (λ h q. ground (arith, h, e, q), λ h. ground (arith, h, e))
prop_diverged-Apart a b (some n) k =
    let e = option_json_eq.same_key_iff (get k a) (get k b) in
    let f = option_json_eq.same_key_iff (get k a) (get k (props_of n)) in
    let g = option_json_eq.same_key_iff (get k b) (get k (props_of n)) in
    (
      λ h. (
        λ q. ground (arith, h, e, q),
        λ q. ground (arith, h, f, q),
        λ q. ground (arith, h, g, q),
      ),
      λ h. ground (arith, h.0, h.1, h.2, e, f, g),
    )

child_order_conflict-Apart :
    (left right base : Option (List Node))
    → (child_order_conflict left right base ≡ true)
      ↔ Apart (order_of left) (order_of right) (ids_before base)
unfolding child_order_conflict same_child_order
child_order_conflict-Apart left right none =
    let e = ids_eq.same_key_iff (order_of left) (order_of right) in
    (λ h q. ground (arith, h, e, q), λ h. ground (arith, h, e))
child_order_conflict-Apart left right (some cs) =
    let e = ids_eq.same_key_iff (order_of left) (order_of right) in
    let f = ids_eq.same_key_iff (order_of left) (map node_id cs) in
    let g = ids_eq.same_key_iff (order_of right) (map node_id cs) in
    (
      λ h. (
        λ q. ground (arith, h, e, q),
        λ q. ground (arith, h, f, q),
        λ q. ground (arith, h, g, q),
      ),
      λ h. ground (arith, h.0, h.1, h.2, e, f, g),
    )

node_reordered-Apart :
    (l r : Node) (o : Option Node)
    → (node_reordered l r o ≡ true)
      ↔ Apart (order_of (children_key l)) (order_of (children_key r)) (order_at o)
unfolding node_reordered
node_reordered-Apart l r none = child_order_conflict-Apart (children_key l) (children_key r) none
node_reordered-Apart l r (some n) =
    child_order_conflict-Apart (children_key l) (children_key r) (children_key n)

abbrev pub Reported : Option Node → Option Node → Option Node → Type 0
Reported local remote baseline =
    (l : Node) × (r : Node) × (local ≡ some l) × (remote ≡ some r) × Overlaps l r baseline

module _ (remotes : Dict String Node) (baselines : Option (Dict String Node)) (id : String) where
  reported-Overlaps :
      (l r : Node)
      → get id remotes ≡ some r
      → reported remotes baselines id l ≡ true
      → Overlaps l r (baseline_at baselines id)
  unfolding reported node_fields
  reported-Overlaps l r g h = elim (Bool-cases (some_field fields)) [
    | inl t ↦
        let (k, m) = some_field-prop fields t in
        both_set k (
          (prop_diverged-Apart (props_of l) (props_of r) (baseline_at baselines id) k).0 (
            sym (
              mem-prop_conflict_fields id (props_of l) (props_of r)
                (baseline_props (baseline_at baselines id)) k)
            ∙ m))
    | inr f ↦
        both_moved
          ((node_reordered-Apart l r (baseline_at baselines id)).0 (ground (arith, h, g, f)))
  ]
    where
      fields : List ConflictField
      fields = node_fields id l r (baseline_at baselines id)

  Overlaps-reported :
      (l r : Node)
      → get id remotes ≡ some r
      → Overlaps l r (baseline_at baselines id)
      → reported remotes baselines id l ≡ true
  unfolding reported node_fields
  Overlaps-reported l r g (both_set k h) = ground (
    arith,
    g,
    some_field-mem (node_fields id l r (baseline_at baselines id)) k,
    mem-prop_conflict_fields id (props_of l) (props_of r)
        (baseline_props (baseline_at baselines id)) k,
    (prop_diverged-Apart (props_of l) (props_of r) (baseline_at baselines id) k).1 h,
  )
  Overlaps-reported l r g (both_moved h) =
      ground (arith, g, (node_reordered-Apart l r (baseline_at baselines id)).1 h)

  reported_at-Reported :
      (o : Option Node)
      → reported_at remotes baselines id o ≡ true
      → Reported o (get id remotes) (baseline_at baselines id)
  unfolding reported_at reported
  reported_at-Reported none h = absurd (cc (h))
  reported_at-Reported (some l) h = elim (Option-cases (get id remotes)) [
    | inl g ↦ absurd (ground (arith, h, g))
    | inr (r, g) ↦ (l, r, refl, g, reported-Overlaps l r g h)
  ]

pub compute_conflict_iff :
    (baseline : Option PageIr) (local remote : PageIr) (id : String)
    → (mem id (compute_conflict baseline local remote).node_ids ≡ true)
      ↔ Reported
          (get id (collect_nodes local.root))
          (get id (collect_nodes remote.root))
          (baseline_at (baseline_nodes baseline) id)
unfolding reported_at
compute_conflict_iff baseline local remote id = (
  λ h.
      reported_at-Reported (collect_nodes remote.root) (baseline_nodes baseline) id
        (get id (collect_nodes local.root)) (sym (mem-node_ids baseline local remote id) ∙ h),
  λ (l, r, p, q, o).
      mem-node_ids baseline local remote id
      ∙ (ap (reported_at (collect_nodes remote.root) (baseline_nodes baseline) id) p
          ∙ Overlaps-reported (collect_nodes remote.root) (baseline_nodes baseline) id l r q o),
)
