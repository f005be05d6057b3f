-- ===== src/NativeTree/RoundTrip/Tests.antt =====
-- Saves and reads of a small page.
use anvilkit_plugin_collab_y.Base.{
  ℕ, ◌≡◌, refl, true, false, Option, none, some, List, [], ◌∷◌, String, string_eq, arith, In, inl,
  inr, ◌==◌, ◌≤◌, beq_refl, ap, subst, map, All, Option-cases,
}
use anvilkit_plugin_collab_y.Base.Dict.{Dict, keys, get, has, put, put_all, In-of_get}
use anvilkit_plugin_collab_y.Base.IdSet.{mem, add, Distinct}
use anvilkit_plugin_collab_y.Ir.{
  Json, null, str, arr, obj, nil, cons, stop, Own, Node, leaf, branch, end, more, PageIr, own, walk,
  visit, size, node_id, forest, trees, option_string_eq,
}
use anvilkit_plugin_collab_y.NativeTree.Diff.{
  nodes_by_id, diff_ir_nodes_for_local_save, child_ids, content_changed,
}
use anvilkit_plugin_collab_y.NativeTree.Diff.Laws.{own_differs-eq}
use anvilkit_plugin_collab_y.NativeTree.Store.{
  not_text, NodeMap, NativeTree, empty_tree, empty_node_map,
}
use anvilkit_plugin_collab_y.NativeTree.Write.{
  apply_ir_to_native_tree, apply_changed_nodes_to_native_tree, inherited_names,
}
use anvilkit_plugin_collab_y.NativeTree.Diff.Laws.{UniqueIds}
use anvilkit_plugin_collab_y.NativeTree.Write.Deleted.{deleted-apply_ir}
use anvilkit_plugin_collab_y.NativeTree.Write.Incremental.{Exact, apply_changed-apply_ir}
use anvilkit_plugin_collab_y.NativeTree.Write.{reconcile_props}
use anvilkit_plugin_collab_y.NativeTree.Write.Merge.{prop_after, reconcile_props-local}
use anvilkit_plugin_collab_y.NativeTree.Store.{text}
use anvilkit_plugin_collab_y.NativeTree.Read.{
  ReadGuardOptions, limits_of, read_native_tree, read_from_top, read_node, enter, trip, note_guard,
  parse_node_own, parse_map, read_props, read_prop, read_children, cycle, trip_eq, array_only,
  object_only,
}
use anvilkit_plugin_collab_y.NativeTree.Read.Bounds.{Levels, read_native_tree-bounds}
use anvilkit_plugin_collab_y.NativeTree.Read.Decoded.{
  check_decoded_prop, check_loop, check_value, push_parts, json_size,
}
use anvilkit_plugin_collab_y.NativeTree.RoundTrip.{Valid, ValidNode, Readable, SameDocument}
use anvilkit_plugin_collab_y.NativeTree.Read.Decoded.Bounds.{
  Fits as FitsWithin, check_decoded_prop_iff,
}
use anvilkit_plugin_collab_y.NativeTree.RoundTrip.Saved.{apply_ir-first}
use anvilkit_plugin_collab_y.NativeTree.RoundTrip.Sessions.{
  get-Carries, Fits, first_save, full_save, incremental_save, save_changed,
  read_native_tree-Session,
}

abbrev units : Json → ℕ
units v = 10

abbrev options : ReadGuardOptions
options = record {
  max_depth = some 10;
  max_nodes = some 100;
  prop_guards = record { bytes = some 20; depth = some 3; array_length = some 3; nodes = some 10 };
}

abbrev field_of : String → String → Dict String Json → Own
field_of id kind props = record {
  id = id;
  kind = kind;
  slot = none;
  slot_kind = none;
  props = props;
  assets = none;
  meta = none;
}

abbrev page_of : Node → PageIr
page_of root = record { version = "1"; root = root; assets = arr nil; metadata = obj stop }

abbrev title : Node
title = leaf (field_of "t" "Text" (("text", str "hello") ∷ []))

abbrev new_title : Node
new_title = leaf (field_of "t" "Text" (("text", str "bye") ∷ ("size", null) ∷ []))

abbrev image : Node
image = leaf (field_of "i" "Image" [])

abbrev page : PageIr
page = page_of (branch (field_of "r" "Root" []) (more title (more image end)))

abbrev next_page : PageIr
next_page = page_of (branch (field_of "r" "Root" []) (more image (more new_title end)))

at : {A : Type 0} (P : A → Type 0) (xs : List A) → All P xs → (a : A) → In a xs → P a
at P [] h a i = absurd i
at P (x ∷ xs) h a (inl e) = subst P e h.0
at P (x ∷ xs) h a (inr i) = at P xs h.1 a i

abbrev PlainEntry : String × Json → Type 0
PlainEntry e = mem e.0 inherited_names ≡ false

plain_of :
    (props : Dict String Json)
    → All PlainEntry props
    → (k : String) → has k props ≡ true
    → mem k inherited_names ≡ false
plain_of props h k e = elim (Option-cases (get k props)) [
  | inl g ↦ absurd (cc (g, e))
  | inr (v, g) ↦ at PlainEntry props h (k, v) (In-of_get k v props g)
]

abbrev ReadableEntry : String × Json → Type 0
ReadableEntry e =
    (units e.1 ≤ 20)
    × (check_decoded_prop e.1 (limits_of options).props ≡ none)
    × ((e.0 == "__proto__") ≡ false)

valid_node :
    (n : Node)
    → Distinct (keys (own n).props)
    → All PlainEntry (own n).props
    → Distinct (child_ids n)
    → ValidNode n
valid_node n d p c = record { names = d; plain = plain_of (own n).props p; children = c }

node-Readable :
    (n : Node)
    → array_only (own n).assets ≡ (own n).assets
    → object_only (own n).meta ≡ (own n).meta
    → All ReadableEntry (own n).props
    → Readable units (limits_of options).props n
unfolding limits_of
node-Readable n a m h = record {
  assets = a;
  meta = m;
  props = λ k v g. at ReadableEntry (own n).props h (k, v) (In-of_get k v (own n).props g);
}

page-Valid : Valid page
unfolding walk mem trees
page-Valid = record {
  ids = (refl, (refl, (refl, tt)));
  each = at ValidNode (walk page.root) (
    valid_node page.root tt tt (refl, (refl, tt)),
    (valid_node image tt tt tt, (valid_node title (refl, tt) (refl, tt) tt, tt)),
  );
}

next-Valid : Valid next_page
unfolding walk mem trees
next-Valid = record {
  ids = (refl, (refl, (refl, tt)));
  each = at ValidNode (walk next_page.root) (
    valid_node next_page.root tt tt (refl, (refl, tt)),
    (
      valid_node new_title (refl, (refl, tt)) (refl, (refl, tt)) tt,
      (valid_node image tt tt tt, tt),
    ),
  );
}

next-Fits : Fits units options next_page
unfolding walk trees limits_of check_decoded_prop check_loop check_value push_parts json_size size
next-Fits = record {
  version = refl;
  levels = (tt, (tt, tt));
  nodes = omega arith;
  each = at (Readable units (limits_of options).props) (walk next_page.root) (
    node-Readable next_page.root refl refl tt,
    (
      node-Readable new_title refl refl
          ((omega arith, refl, refl), ((omega arith, refl, refl), tt)),
      (node-Readable image refl refl tt, tt),
    ),
  );
}

-- No hash is cached, so the comparison is by the fields.
abbrev kind_hash : Own → String
kind_hash o = o.kind

next-Exact : Exact kind_hash none page next_page
unfolding content_changed
next-Exact n p i j e h = own_differs-eq (own n) (own p) e h

-- A first save, an incremental one that moves and edits a child, and the same page once more.
read_native_tree-Session_example :
    let t = apply_ir_to_native_tree units empty_tree page none in
    let u = save_changed kind_hash units none t page next_page in
    let r = read_native_tree options (apply_ir_to_native_tree units u next_page (some next_page)) in
    (read : PageIr) × (r.0 ≡ some read) × SameDocument read next_page × (r.1.calls ≡ [])
read_native_tree-Session_example =
    read_native_tree-Session kind_hash units options
      (full_save (incremental_save none (first_save page-Valid) next-Valid refl next-Exact)
        next-Valid)
      next-Fits

-- Children that the tree lists twice: the second read trips.
abbrev cyclic_tree : NativeTree
cyclic_tree = record {
  version = some "1";
  root_id = some "r";
  assets = none;
  metadata = none;
  nodes =
      ("r", record empty_node_map { kind = some "Root"; child_ids = some ("t" ∷ "r" ∷ "i" ∷ []) })
      ∷ ("t", record empty_node_map { kind = some "Text"; props = some (("a", not_text) ∷ []) })
      ∷ [];
}

cyclic_read : read_native_tree options cyclic_tree ≡ (
  some (page_of (branch (field_of "r" "Root" []) (more (leaf (field_of "t" "Text" [])) end))),
  record {
    visited = "r" ∷ "t" ∷ [];
    count = 2;
    tripped = true;
    fired_reasons = cycle ∷ [];
    calls = cycle ∷ [];
  },
)
unfolding read_native_tree limits_of read_from_top read_node enter mem add trip note_guard get
    parse_node_own parse_map read_props read_prop read_children forest
cyclic_read = rw (beq_refl {K = Option String} (some "1")) refl

read_native_tree-bounds_example :
    let root = branch (field_of "r" "Root" []) (more (leaf (field_of "t" "Text" [])) end) in
    Distinct (map node_id (visit root))
    × (size root ≤ 100)
    × Levels 11 root
    × Distinct (read_native_tree options cyclic_tree).1.calls
unfolding limits_of
read_native_tree-bounds_example =
    read_native_tree-bounds options cyclic_tree
      (page_of (branch (field_of "r" "Root" []) (more (leaf (field_of "t" "Text" [])) end)))
      (ap (λ r. r.0) cyclic_read)

-- The incremental save of the second page on the tree of the first.
apply_changed-apply_ir_example :
    let t = apply_ir_to_native_tree units empty_tree page none in
    let d = diff_ir_nodes_for_local_save kind_hash none (some page) next_page in
    let a =
      apply_changed_nodes_to_native_tree units t next_page
        (some page)
        d.changed
        d.baseline
        d.removed in
    let b = apply_ir_to_native_tree units t next_page (some page) in
    (a.version ≡ b.version)
    × (a.root_id ≡ b.root_id)
    × (a.assets ≡ b.assets)
    × (a.metadata ≡ b.metadata)
    × (get "t" a.nodes ≡ get "t" b.nodes)
apply_changed-apply_ir_example =
    apply_changed-apply_ir kind_hash none units (apply_ir_to_native_tree units empty_tree page none)
      page next_page "t" refl next-Valid.ids (λ n i. (next-Valid.each n i).names) next-Exact
      (λ p i.
        get-Carries units (apply_ir_to_native_tree units empty_tree page none) page p page-Valid
          (apply_ir-first units page page-Valid) i)

-- The image is dropped.
abbrev short_page : PageIr
short_page = page_of (branch (field_of "r" "Root" []) (more title end))

short-UniqueIds : UniqueIds short_page.root
unfolding walk mem
short-UniqueIds = (refl, (refl, tt))

-- A peer has deleted the title, and the next save drops the image.
deleted-apply_ir_example :
    let d = diff_ir_nodes_for_local_save kind_hash none (some page) short_page in
    (get "t"
        (apply_changed_nodes_to_native_tree units empty_tree short_page
          (some page)
          d.changed
          d.baseline
          d.removed).nodes
      ≡ none)
    × ((m : NodeMap) × (get "t"
            (apply_ir_to_native_tree units empty_tree short_page (some page)).nodes
          ≡ some m)
        × (m.props ≡ some [])
        × (m.child_ids ≡ some []))
unfolding get nodes_by_id walk put put_all mem
deleted-apply_ir_example =
    deleted-apply_ir kind_hash none units empty_tree page short_page "t" title title refl
      (λ n p h i j e c. absurd (cc (c))) refl refl refl (refl, refl) short-UniqueIds (refl, tt)

check_decoded_prop_iff_example :
    let v = arr (cons (str "a") (cons null nil)) in
    let l = (limits_of options).props in
    (check_decoded_prop v l ≡ none → (json_size v ≤ l.max_nodes) × FitsWithin l 0 v)
    × (json_size v ≤ l.max_nodes → FitsWithin l 0 v → check_decoded_prop v l ≡ none)
check_decoded_prop_iff_example =
    check_decoded_prop_iff (limits_of options).props (arr (cons (str "a") (cons null nil)))

-- The size is changed, the text is not, and another peer's text stays.
reconcile_props-local_example :
    get "text" (
      reconcile_props units
        (("text", text 5 none) ∷ [])
        (("text", str "hello") ∷ ("size", null) ∷ [])
        (some (("text", str "hello") ∷ [])))
    ≡ prop_after units (some (str "hello")) (some (str "hello")) false (some (text 5 none))
unfolding mem get
reconcile_props-local_example =
    reconcile_props-local units "text" (("text", text 5 none) ∷ [])
      (("text", str "hello") ∷ ("size", null) ∷ []) (("text", str "hello") ∷ []) (refl, (refl, tt))
      (refl, tt)
