-- ===== src/NativeTree/RoundTrip/Saved.antt =====
-- A save leaves a tree that holds the document saved, when the tree held the baseline.
use anvilkit_plugin_collab_y.Base.{
  ℕ, ◌≡◌, refl, sym, ap, ◌∙◌, subst, Bool, true, false, not, ◌&&◌, Option, none, some, List, [],
  String, ◌==◌, string_eq, if◌then◌else◌, beq-eq, arith, or_else, is_some, if-both,
}
use anvilkit_plugin_collab_y.Base.Dict.{Dict, keys, get, put_all, has}
use anvilkit_plugin_collab_y.Base.IdSet.{mem, Distinct}
use anvilkit_plugin_collab_y.Ir.{
  Json, Node, PageIr, own, json_eq, option_json_eq, option_string_eq, arr, obj, nil, stop,
}
use anvilkit_plugin_collab_y.NativeTree.Diff.{child_ids, nodes_by_id}
use anvilkit_plugin_collab_y.NativeTree.Diff.Laws.{get-nodes_by_id-In}
use anvilkit_plugin_collab_y.NativeTree.Reconcile.{same_list}
use anvilkit_plugin_collab_y.NativeTree.Reconcile.Alone.{reconcile_keyed_array-alone}
use anvilkit_plugin_collab_y.NativeTree.Reconcile.Lists.{same_list-eq}
use anvilkit_plugin_collab_y.NativeTree.Store.{
  Raw, NodeMap, NativeTree, empty_node_map, empty_tree, stringify_truthy,
}
use anvilkit_plugin_collab_y.NativeTree.Write.{
  write_or_clear, write_text, set_props, reconcile_props, reconcile_child_ids, encode, write_node,
  write_root, apply_ir_to_native_tree, inherited_names,
}
use anvilkit_plugin_collab_y.NativeTree.Write.Full.{get-full}
use anvilkit_plugin_collab_y.NativeTree.Write.Lookup.{written}
use anvilkit_plugin_collab_y.NativeTree.Write.Merge.{
  set_value, get-set_props, prop_after, reconcile_props-local, set_props-Distinct,
  clear_props-Distinct,
}
use anvilkit_plugin_collab_y.NativeTree.RoundTrip.{
  encoded, Holds, HoldsAt, Mirrors, ValidNode, Valid,
}

write_or_clear-next :
    (cur next prev : Option String) → cur ≡ prev → write_or_clear cur next prev ≡ next
unfolding write_or_clear
write_or_clear-next cur next prev e =
    if-both (λ x. x ≡ next) (next == prev) _ _ (λ t. e ∙ sym (beq-eq next prev t)) (λ f. refl)

write_text-next : (cur next prev : Option Json) → cur ≡ prev → write_text cur next prev ≡ next
unfolding write_text
write_text-next cur next prev e =
    if-both (λ x. x ≡ next) (next == prev) _ _ (λ t. e ∙ sym (beq-eq next prev t)) (λ f. refl)

reconcile_child_ids-desired :
    (desired base : List String)
    → Distinct desired
    → Distinct base
    → reconcile_child_ids base desired base ≡ desired
unfolding reconcile_child_ids
reconcile_child_ids-desired desired base d b =
    if-both (λ xs. xs ≡ desired) (same_list desired base) _ _
      (λ t. sym (same_list-eq desired base t)) (λ f. reconcile_keyed_array-alone base desired b d)

if_kept :
    (b : Bool) (cur : Option Json) (v d : Json)
    → (b ≡ true → or_else cur d ≡ v)
    → or_else (if b then cur else some v) d ≡ v
if_kept b cur v d h = ground (arith, h)

module _ (units : Json → ℕ) where
  set_value_fresh : (v : Option Json) → set_value units none v none ≡ encoded units v
  set_value_fresh none = refl
  set_value_fresh (some v) =
      if-both (λ x. x ≡ some (encode units v)) (some v == none) _ _
        (λ t. absurd (cc (beq-eq (some v) none t))) (λ f. refl)

  prop_after-encoded :
      (base next : Option Json) (plain : Bool)
      → (is_some base ≡ true → plain ≡ false)
      → prop_after units base next plain (encoded units base) ≡ encoded units next
  prop_after-encoded none none plain h = refl
  prop_after-encoded (some b) none plain h = rw (h refl) refl
  prop_after-encoded none (some v) plain h = set_value_fresh (some v)
  prop_after-encoded (some b) (some v) plain h =
      if-both (λ x. x ≡ some (encode units v)) (some v == some b) _ _
        (λ t. ap (encoded units) (sym (beq-eq (some v) (some b) t))) (λ f. refl)

  reconcile_props-values :
      (k : String) (target : Dict String Raw) (props base : Dict String Json)
      → Distinct (keys props)
      → Distinct (keys base)
      → (has k base ≡ true → mem k inherited_names ≡ false)
      → get k target ≡ encoded units (get k base)
      → get k (reconcile_props units target props (some base)) ≡ encoded units (get k props)
  reconcile_props-values k target props base dp db plain h =
      reconcile_props-local units k target props base dp db
      ∙ ap (prop_after units (get k base) (get k props) (mem k inherited_names)) h
      ∙ prop_after-encoded (get k base) (get k props) (mem k inherited_names) plain

  -- A node that is new to the tree.
  write_node-new : (n : Node) → ValidNode n → Holds units (write_node units empty_node_map n none) n
  unfolding write_node reconcile_props stringify_truthy get
  write_node-new n v = record {
    id = refl;
    kind = refl;
    slot = write_or_clear-next none (own n).slot none refl;
    slot_kind = write_or_clear-next none (own n).slot_kind none refl;
    props = set_props units [] (own n).props [];
    has_props = refl;
    names = set_props-Distinct units [] (own n).props [] tt;
    values = λ k.
        get-set_props units k [] (own n).props [] v.names ∙ set_value_fresh (get k (own n).props);
    children = ap some (reconcile_child_ids-desired (child_ids n) [] v.children tt);
    assets = write_text-next none (stringify_truthy (own n).assets) none refl;
    meta = write_text-next none (stringify_truthy (own n).meta) none refl;
  }

  -- A node that the tree holds as it was in the baseline.
  write_node-next :
      (m : NodeMap) (n p : Node)
      → ValidNode n
      → ValidNode p
      → Holds units m p
      → Holds units (write_node units m n (some p)) n
  unfolding write_node reconcile_props
  write_node-next m n p v w h = record {
    id = refl;
    kind = refl;
    slot = write_or_clear-next m.slot (own n).slot (own p).slot h.slot;
    slot_kind = write_or_clear-next m.slot_kind (own n).slot_kind (own p).slot_kind h.slot_kind;
    props = reconcile_props units (or_else m.props []) (own n).props (some (own p).props);
    has_props = refl;
    names =
        clear_props-Distinct units (own n).props (keys (put_all (own p).props []))
          (set_props units (put_all (own p).props []) (own n).props (or_else m.props []))
          (set_props-Distinct units (put_all (own p).props []) (own n).props (or_else m.props [])
            (subst (λ o. Distinct (keys (or_else o []))) (sym h.has_props) h.names));
    values = λ k.
        reconcile_props-values k (or_else m.props []) (own n).props (own p).props v.names w.names
          (w.plain k) (ap (λ o. get k (or_else o [])) h.has_props ∙ h.values k);
    children = ap some (
        ap (λ o. reconcile_child_ids (or_else o []) (child_ids n) (child_ids p)) h.children
        ∙ reconcile_child_ids-desired (child_ids n) (child_ids p) v.children w.children);
    assets =
        write_text-next m.assets (stringify_truthy (own n).assets) (stringify_truthy (own p).assets)
          h.assets;
    meta =
        write_text-next m.meta (stringify_truthy (own n).meta) (stringify_truthy (own p).meta)
          h.meta;
  }

  written-HoldsAt :
      (cur : Option NodeMap) (p n : Option Node)
      → HoldsAt units cur p
      → ((m : Node) → n ≡ some m → ValidNode m)
      → ((m : Node) → p ≡ some m → ValidNode m)
      → HoldsAt units (if is_some p && not (is_some n) then none else written units cur p n) n
  written-HoldsAt none none none h vn vp = tt
  written-HoldsAt none none (some n) h vn vp = write_node-new n (vn n refl)
  written-HoldsAt (some m) (some p) none h vn vp = tt
  written-HoldsAt (some m) (some p) (some n) h vn vp =
      write_node-next m n p (vn n refl) (vp p refl) h
  written-HoldsAt none (some p) n h vn vp = absurd h
  written-HoldsAt (some m) none n h vn vp = absurd h

  Valid-at :
      (ir : PageIr)
      → Valid ir
      → (k : String) (n : Node) → get k (nodes_by_id ir.root) ≡ some n
      → ValidNode n
  Valid-at ir v k n e = v.each n (get-nodes_by_id-In ir.root k n e).0

  -- A tree that holds a valid document holds the next one after a full save against it.
  pub apply_ir-Mirrors :
      (t : NativeTree) (prev next : PageIr)
      → Valid prev
      → Valid next
      → Mirrors units t prev
      → Mirrors units (apply_ir_to_native_tree units t next (some prev)) next
  unfolding apply_ir_to_native_tree write_root
  apply_ir-Mirrors t prev next vp vn h = record {
    version = refl;
    root_id = refl;
    assets =
        if_kept (next.assets == prev.assets) t.assets next.assets (arr nil)
          (λ e. h.assets ∙ sym (beq-eq next.assets prev.assets e));
    metadata =
        if_kept (next.metadata == prev.metadata) t.metadata next.metadata (obj stop)
          (λ e. h.metadata ∙ sym (beq-eq next.metadata prev.metadata e));
    nodes = λ k.
        subst (λ m. HoldsAt units m (get k (nodes_by_id next.root)))
          (sym (get-full units t (some prev) next k vn.ids))
          (written-HoldsAt (get k t.nodes) (get k (nodes_by_id prev.root))
            (get k (nodes_by_id next.root)) (h.nodes k) (Valid-at next vn k) (Valid-at prev vp k));
  }

  -- A first save into an empty tree leaves a tree that holds the document.
  pub apply_ir-first :
      (ir : PageIr) → Valid ir → Mirrors units (apply_ir_to_native_tree units empty_tree ir none) ir
  unfolding apply_ir_to_native_tree write_root get
  apply_ir-first ir v = record {
    version = refl;
    root_id = refl;
    assets =
        if_kept (ir.assets == arr nil) none ir.assets (arr nil)
          (λ e. sym (beq-eq ir.assets (arr nil) e));
    metadata =
        if_kept (ir.metadata == obj stop) none ir.metadata (obj stop)
          (λ e. sym (beq-eq ir.metadata (obj stop) e));
    nodes = λ k.
        subst (λ m. HoldsAt units m (get k (nodes_by_id ir.root)))
          (sym (get-full units empty_tree none ir k v.ids))
          (written-HoldsAt none none (get k (nodes_by_id ir.root)) tt (Valid-at ir v k)
            (λ m e. absurd (cc (e))));
  }
