-- ===== src/Conflicts/Leaves.antt =====
-- Disjoint edits are not reported, and a node without a children array in the baseline is
-- reported when one side alone gives it children.
use anvilkit_plugin_collab_y.Base.{
  ◌≡◌, refl, sym, ap, inl, inr, ◌⊎◌, ◌≢◌, true, Option, some, List, [], ◌∷◌, map, String, string_eq,
  arith, subst,
}
use anvilkit_plugin_collab_y.Base.Dict.{get}
use anvilkit_plugin_collab_y.Base.IdSet.{mem}
use anvilkit_plugin_collab_y.Ir.{
  Own, Node, leaf, branch, Forest, more, PageIr, children_key, trees, node_id, option_json_eq,
  ids_eq,
}
use anvilkit_plugin_collab_y.Conflicts.Detect.{collect_nodes, props_of, compute_conflict, order_of}
use anvilkit_plugin_collab_y.Conflicts.Overlap.{
  compute_conflict_iff, Apart, order_at, Overlaps, both_set, both_moved,
}

-- At most one side changed each prop, and at most one the child order.
pub record OneSided (b l r : Node) : Type 0 where
  pub child_array : (cs : List Node) × (children_key b ≡ some cs)
  pub one_sets :
      (k : String)
      → (get k (props_of l) ≡ get k (props_of b)) ⊎ (get k (props_of r) ≡ get k (props_of b))
  pub one_moves :
      (order_of (children_key l) ≡ order_of (children_key b))
      ⊎ (order_of (children_key r) ≡ order_of (children_key b))

OneSided-not_moved :
    (left right : Option (List Node)) (b : Node) (cs : List Node)
    → children_key b ≡ some cs
    → (order_of left ≡ order_of (children_key b)) ⊎ (order_of right ≡ order_of (children_key b))
    → Apart (order_of left) (order_of right) (order_at (some b))
    → ⊥
OneSided-not_moved left right (leaf b) cs e o h = absurd (cc (e))
OneSided-not_moved left right (branch b f) cs e (inl o) h = h.1 o
OneSided-not_moved left right (branch b f) cs e (inr o) h = h.2 o

OneSided-not-Overlaps : (b l r : Node) → OneSided b l r → Overlaps l r (some b) → ⊥
OneSided-not-Overlaps b l r o (both_set k h) = elim (o.one_sets k) [ inl e ↦ h.1 e | inr e ↦ h.2 e ]
OneSided-not-Overlaps b l r o (both_moved h) =
    OneSided-not_moved (children_key l) (children_key r) b o.child_array.0 o.child_array.1
      o.one_moves h

empty_of_mem : (xs : List String) → ((x : String) → mem x xs ≢ true) → xs ≡ []
unfolding mem
empty_of_mem [] h = refl
empty_of_mem (x ∷ xs) h = absurd (h x (ground (arith, string_eq.same_key_iff x x)))

-- When each node that both documents have is in the baseline with a children array, and on each
-- of its props and on its child order at most one side differs from the baseline, nothing is
-- reported: disjoint edits of one node are no conflict.
pub compute_conflict-disjoint :
    (baseline local remote : PageIr)
    → ((id : String) (l r : Node)
        → get id (collect_nodes local.root) ≡ some l
        → get id (collect_nodes remote.root) ≡ some r
        → (b : Node) × (get id (collect_nodes baseline.root) ≡ some b) × OneSided b l r)
    → (compute_conflict (some baseline) local remote).node_ids ≡ []
compute_conflict-disjoint baseline local remote d = empty_of_mem _ (λ id h.
    let (l, r, p, q, o) = (compute_conflict_iff (some baseline) local remote id).0 h in
    let (b, e, one) = d id l r p q in OneSided-not-Overlaps b l r one (subst (Overlaps l r) e o))

-- When a node has no children array in the local document and in the baseline, and the remote
-- document gives it a first child, the node is reported, whatever else the documents have: also
-- when the local user did not touch it.
pub compute_conflict-first_child :
    (baseline local remote : PageIr) (id : String) (b l o : Own) (n : Node) (f : Forest)
    → get id (collect_nodes baseline.root) ≡ some (leaf b)
    → get id (collect_nodes local.root) ≡ some (leaf l)
    → get id (collect_nodes remote.root) ≡ some (branch o (more n f))
    → mem id (compute_conflict (some baseline) local remote).node_ids ≡ true
unfolding trees
compute_conflict-first_child baseline local remote id b l o n f p q r =
    (compute_conflict_iff (some baseline) local remote id).1 (
      leaf l,
      branch o (more n f),
      q,
      r,
      both_moved (
          subst (Apart [] (node_id n ∷ map node_id (trees f))) (sym (ap order_at p)) (λ e. cc (e))),
    )
