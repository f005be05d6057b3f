-- ===== src/NativeTree/RoundTrip/Sessions.antt =====
-- A session alone on the native tree: a first save and any number of later ones.
use anvilkit_plugin_collab_y.Base.{
  ℕ, ◌+◌, ◌≤◌, ◌≡◌, refl, sym, ap, ◌∙◌, subst, true, Option, none, some, [], map, String, ◌==◌,
  Keyed, string_eq, arith, or_else, In, is_some,
}
use anvilkit_plugin_collab_y.Base.Dict.{Dict, get}
use anvilkit_plugin_collab_y.Base.IdSet.{Distinct, append-Distinct, Distinct-append}
use anvilkit_plugin_collab_y.Ir.{
  Json, Own, Node, leaf, branch, Forest, end, more, PageIr, own, node_id, walk, walk_back, visit,
  visit_all, size, option_string_eq, arr, obj, nil, stop,
}
use anvilkit_plugin_collab_y.Ir.Walks.{visit_iff}
use anvilkit_plugin_collab_y.NativeTree.Diff.{nodes_by_id, diff_ir_nodes_for_local_save}
use anvilkit_plugin_collab_y.NativeTree.Diff.Laws.{UniqueIds, get-nodes_by_id}
use anvilkit_plugin_collab_y.NativeTree.Store.{NodeMap, NativeTree, empty_tree}
use anvilkit_plugin_collab_y.NativeTree.Write.{
  apply_ir_to_native_tree, apply_changed_nodes_to_native_tree,
}
use anvilkit_plugin_collab_y.NativeTree.Write.Full.{mem-visit, mem-visit_all}
use anvilkit_plugin_collab_y.NativeTree.Write.Incremental.{Exact, apply_changed-apply_ir}
use anvilkit_plugin_collab_y.NativeTree.Write.Skip.{Carries}
use anvilkit_plugin_collab_y.NativeTree.Read.{ReadGuardOptions, limits_of, read_native_tree}
use anvilkit_plugin_collab_y.NativeTree.Read.Bounds.{Levels, length-visit}
use anvilkit_plugin_collab_y.NativeTree.RoundTrip.{
  Holds, HoldsAt, Mirrors, Valid, SameDocument, Readable,
}
use anvilkit_plugin_collab_y.NativeTree.RoundTrip.Loaded.{load_top}
use anvilkit_plugin_collab_y.NativeTree.RoundTrip.Saved.{apply_ir-Mirrors, apply_ir-first}
use mathlib.Core.List.{map-append}

mutual
  unfolding visit walk

  pub visit-Distinct : (n : Node) → UniqueIds n → Distinct (map node_id (visit n))
  visit-Distinct (leaf o) d = d
  visit-Distinct (branch o f) d = (mem-visit_all o.id f ∙ d.0, visit_all-Distinct f d.1)

  visit_all-Distinct :
      (f : Forest) → Distinct (map node_id (walk_back f)) → Distinct (map node_id (visit_all f))
  visit_all-Distinct end d = tt
  visit_all-Distinct (more n f) d =
      let r =
        Distinct-append (map node_id (walk_back f)) (map node_id (walk n))
          (subst Distinct (map-append node_id (walk_back f) (walk n)) d) in
      subst Distinct (sym (map-append node_id (visit n) (visit_all f))) (
        append-Distinct (map node_id (visit n)) (map node_id (visit_all f)) (visit-Distinct n r.1)
          (visit_all-Distinct f r.0) (λ x m. mem-visit_all x f ∙ r.2 x (sym (mem-visit x n) ∙ m)))

-- A document within the limits of the reader, of the version that it takes.
pub record Fits (units : Json → ℕ) (options : ReadGuardOptions) (ir : PageIr) : Type 0 where
  pub version : ir.version ≡ "1"
  pub levels : Levels ((limits_of options).depth + 1) ir.root
  pub nodes : size ir.root ≤ (limits_of options).nodes
  pub each : (n : Node) → In n (walk ir.root) → Readable units (limits_of options).props n

HoldsAt-some :
    (units : Json → ℕ) (o : Option NodeMap) (n : Node)
    → HoldsAt units o (some n)
    → (m : NodeMap) × (o ≡ some m) × Holds units m n
HoldsAt-some units none n h = absurd h
HoldsAt-some units (some m) n h = (m, refl, h)

module _ (units : Json → ℕ) where
  -- The map of a node of the document.
  get-Holds :
      (t : NativeTree) (ir : PageIr) (n : Node)
      → Valid ir
      → Mirrors units t ir
      → In n (walk ir.root)
      → (m : NodeMap) × (get (node_id n) t.nodes ≡ some m) × Holds units m n
  get-Holds t ir n v h i = HoldsAt-some units (get (node_id n) t.nodes) n (
      subst (HoldsAt units (get (node_id n) t.nodes)) (get-nodes_by_id ir.root n v.ids i)
        (h.nodes (node_id n)))

  -- A tree that holds a document reads as it.
  pub read-Mirrors :
      (options : ReadGuardOptions) (t : NativeTree) (ir : PageIr)
      → Mirrors units t ir
      → Valid ir
      → Fits units options ir
      → let r = read_native_tree options t in
        (read : PageIr) × (r.0 ≡ some read) × SameDocument read ir × (r.1.calls ≡ [])
  unfolding read_native_tree
  read-Mirrors options t ir h v f =
      let l = limits_of options in
      let (tree, e, same, calls) =
        load_top units l t.nodes ir.root f.levels (visit-Distinct ir.root v.ids)
          (omega (arith, length-visit ir.root, f.nodes))
          (λ n i.
            let w = (visit_iff ir.root n).1 i in
            let (m, g, k) = get-Holds t ir n v h w in (m, g, k, f.each n w)) in
      let one : (t.version == some "1") ≡ true =
        (option_string_eq.same_key_iff t.version (some "1")).1 (h.version ∙ ap some f.version) in
      (
        record {
          version = "1";
          root = tree;
          assets = or_else t.assets (arr nil);
          metadata = or_else t.metadata (obj stop);
        },
        rw (read_native_tree, one, h.root_id, e) refl,
        record { version = sym f.version; root = same; assets = h.assets; metadata = h.metadata },
        rw (read_native_tree, one, h.root_id) calls,
      )

  pub get-Carries :
      (t : NativeTree) (ir : PageIr) (n : Node)
      → Valid ir
      → Mirrors units t ir
      → In n (walk ir.root)
      → Carries (get (node_id n) t.nodes) (own n)
  get-Carries t ir n v h i =
      let (m, e, k) = get-Holds t ir n v h i in
      subst (λ o. Carries o (own n)) (sym e)
        (k.id, k.kind, ap is_some k.has_props, ap is_some k.children)

-- `hash` is the content hash that incremental saves compare by; a save of a document that lacks a
-- change which the comparison misses is excluded by `Exact`.
module _ {H : Type 0} ⦃eh : Keyed H⦄ (hash : Own → H) (units : Json → ℕ) where
  -- A save of what the classification lists.
  abbrev pub save_changed : Option (Dict String H) → NativeTree → PageIr → PageIr → NativeTree
  save_changed hashes t prev next =
      let d = diff_ir_nodes_for_local_save hash hashes (some prev) next in
      apply_changed_nodes_to_native_tree units t next (some prev) d.changed d.baseline d.removed

  -- The trees that saves of one peer reach, with the document saved last.
  pub data Session : NativeTree → PageIr → Type 0 where
    first_save :
        {ir : PageIr} → Valid ir → Session (apply_ir_to_native_tree units empty_tree ir none) ir
    full_save :
        {t : NativeTree} {prev next : PageIr}
        → Session t prev
        → Valid next
        → Session (apply_ir_to_native_tree units t next (some prev)) next
    incremental_save :
        {t : NativeTree} {prev next : PageIr} (hashes : Option (Dict String H))
        → Session t prev
        → Valid next
        → node_id prev.root ≡ node_id next.root
        → Exact hash hashes prev next
        → Session (save_changed hashes t prev next) next

  Session-Valid : {t : NativeTree} {ir : PageIr} → Session t ir → Valid ir
  Session-Valid (first_save v) = v
  Session-Valid (full_save s v) = v
  Session-Valid (incremental_save hashes s v e x) = v

  Session-Mirrors : {t : NativeTree} {ir : PageIr} → Session t ir → Mirrors units t ir
  Session-Mirrors (first_save v) = apply_ir-first units _ v
  Session-Mirrors (full_save s v) =
      apply_ir-Mirrors units _ _ _ (Session-Valid s) v (Session-Mirrors s)
  Session-Mirrors (incremental_save {t} {prev} {next} hashes s v e x) =
      let full = apply_ir-Mirrors units t prev next (Session-Valid s) v (Session-Mirrors s) in
      let same = λ (k : String).
        apply_changed-apply_ir hash hashes units t prev next k e v.ids (λ n i. (v.each n i).names) x
          (λ p i. get-Carries units t prev p (Session-Valid s) (Session-Mirrors s) i) in
      record {
        version = (same "").0 ∙ full.version;
        root_id = (same "").1 ∙ full.root_id;
        assets = ap (λ o. or_else o (arr nil)) (same "").2 ∙ full.assets;
        metadata = ap (λ o. or_else o (obj stop)) (same "").3 ∙ full.metadata;
        nodes = λ k.
            subst (λ o. HoldsAt units o (get k (nodes_by_id next.root))) (sym (same k).4)
              (full.nodes k);
      }

  -- After any saves of one peer on a new tree, full and incremental ones in any order, the guarded
  -- read reports nothing and returns the document saved last, up to the order of props and empty
  -- children arrays, which count as none. Every saved document has unique ids, no repeated prop
  -- name, child or name that plain objects inherit; an incremental save keeps the root id, and its
  -- comparison of contents misses no change; the last document is of version 1, its fields are of
  -- the types that the read takes, no prop is named __proto__, and it fits the limits of the read.
  pub read_native_tree-Session :
      {t : NativeTree} {ir : PageIr} (options : ReadGuardOptions)
      → Session t ir
      → Fits units options ir
      → let r = read_native_tree options t in
        (read : PageIr) × (r.0 ≡ some read) × SameDocument read ir × (r.1.calls ≡ [])
  read_native_tree-Session options s f =
      read-Mirrors units options _ _ (Session-Mirrors s) (Session-Valid s) f
