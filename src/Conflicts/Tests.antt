-- ===== src/Conflicts/Tests.antt =====
-- Documents with a root and one child, edits of them, and the theorems there.
use anvilkit_plugin_collab_y.Base.{
  ◌≡◌, refl, inl, inr, true, none, some, List, [], ◌∷◌, String, string_eq, arith, subst, ◌==◌,
  beq-cases, Bool-cases,
}
use anvilkit_plugin_collab_y.Base.Dict.{get, put, put_all}
use anvilkit_plugin_collab_y.Base.IdSet.{mem}
use anvilkit_plugin_collab_y.Ir.{
  Json, str, arr, nil, obj, stop, Own, Node, leaf, branch, end, more, PageIr, walk, trees,
}
use anvilkit_plugin_collab_y.Conflicts.{Conflicts, Arrival}
use anvilkit_plugin_collab_y.Conflicts.Detect.{ConflictField, collect_nodes, compute_conflict}
use anvilkit_plugin_collab_y.Conflicts.Leaves.{
  OneSided, compute_conflict-disjoint, compute_conflict-first_child,
}

abbrev box : String → List (String × Json) → Own
box id props = record {
  id = id;
  kind = "Box";
  slot = none;
  slot_kind = none;
  props = props;
  assets = none;
  meta = none;
}

abbrev page : Node → PageIr
page root = record { version = "1"; root = root; assets = arr nil; metadata = obj stop }

abbrev one_box : String → String → PageIr
one_box title text = page (branch (box "r" (("title", str title) ∷ ("text", str text) ∷ [])) end)

abbrev base_page : PageIr
base_page = one_box "old" "old"

one_sided : OneSided base_page.root (one_box "mine" "old").root (one_box "old" "yours").root
unfolding get trees
one_sided = record {
  child_array = ([], refl);
  one_sets =
      λ k. elim (Bool-cases ("title" == k)) [ inl t ↦ inr (rw t refl) | inr f ↦ inl (rw f refl) ];
  one_moves = inl refl;
}

-- The title is set here and the text there.
one_each :
    (id : String) (l r : Node)
    → get id (collect_nodes (one_box "mine" "old").root) ≡ some l
    → get id (collect_nodes (one_box "old" "yours").root) ≡ some r
    → (b : Node) × (get id (collect_nodes base_page.root) ≡ some b) × OneSided b l r
unfolding collect_nodes walk put_all put get
one_each id l r p q = elim (beq-cases "r" id) [
  | inl (t, _) ↦ (
    base_page.root,
    ground (arith, t),
    subst (λ x. OneSided base_page.root x r) (ground (arith, p, t))
        (subst (OneSided base_page.root (one_box "mine" "old").root) (ground (arith, q, t))
          one_sided),
  )
  | inr (f, _) ↦ absurd (ground (arith, p, f))
]

compute_conflict-disjoint_example :
    (compute_conflict (some base_page) (one_box "mine" "old") (one_box "old" "yours")).node_ids ≡ []
compute_conflict-disjoint_example =
    compute_conflict-disjoint base_page (one_box "mine" "old") (one_box "old" "yours") one_each

abbrev leaf_page : PageIr
leaf_page = page (leaf (box "r" []))

abbrev child_page : PageIr
child_page = page (branch (box "r" []) (more (leaf (box "c" [])) end))

leaf_found : get "r" (collect_nodes leaf_page.root) ≡ some leaf_page.root
unfolding collect_nodes walk put_all put get
leaf_found = refl

child_found : get "r" (collect_nodes child_page.root) ≡ some child_page.root
unfolding collect_nodes walk put_all put get
child_found = refl

compute_conflict-first_child_example :
    mem "r" (compute_conflict (some leaf_page) leaf_page child_page).node_ids ≡ true
compute_conflict-first_child_example =
    compute_conflict-first_child leaf_page leaf_page child_page "r" (box "r" []) (box "r" [])
      (box "r" []) (leaf (box "c" [])) end leaf_found leaf_found child_found

abbrev title_field : List ConflictField
title_field =
    record {
      node = "r";
      prop = "title";
      local_value = some (str "mine");
      remote_value = some (str "yours");
    }
    ∷ []

abbrev listening : Conflicts
listening = record {
  stale_after_ms = 100;
  local_peer = str "me";
  listeners = 1 ∷ [];
  last_local_ir = some base_page;
  baseline_ir = none;
  first_unconfirmed_at = none;
  fired = [];
}

abbrev arrival : Arrival
arrival = record { remote_peer = some (str "you"); now = 90; at = "t" }
