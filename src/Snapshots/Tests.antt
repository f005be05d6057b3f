-- ===== src/Snapshots/Tests.antt =====
-- A session of two saves, and stores where an eviction or a deletion drops a base.
use anvilkit_plugin_collab_y.Base.{
  ◌≤◌, length, sym, ap, ◌∙◌, ℕ, ◌≡◌, ◌≢◌, ◌↔◌, refl, sym, inl, inr, true, false, none, some, List,
  [], ◌∷◌, String, ◌==◌, string_eq, arith, In, subst,
}
use anvilkit_plugin_collab_y.Base.Dict.{get, put, put_all, del_all}
use anvilkit_plugin_collab_y.Base.IdSet.{mem}
use anvilkit_plugin_collab_y.Ir.{
  Json, null, arr, nil, obj, stop, Own, Node, leaf, PageIr, node_id, walk, visit, own,
}
use anvilkit_plugin_collab_y.Conflicts.{create_conflicts, note_local_save}
use anvilkit_plugin_collab_y.LiveIr.{create_live_ir}
use anvilkit_plugin_collab_y.LiveIr.Local.{NoCollision}
use anvilkit_plugin_collab_y.PayloadChain.{
  StoredNode, full, delta, ok, reconstruct_payload, reconstruct, replay, apply_stored_delta, build,
  overlay, flatten_tree, build_children, map_present, to_stored_node, from_stored_node,
}
use anvilkit_plugin_collab_y.Ir.Access.{is_array_of, every_item, is_object}
use anvilkit_plugin_collab_y.Snapshots.Meta.{
  SnapshotMeta, valid, encode_meta, parse_snapshot_meta, decode_snapshot_meta_strict,
  is_valid_ir_diff,
}
use anvilkit_plugin_collab_y.Snapshots.Index.{
  SharedMap, valid_metas, read_snapshot_metas, read_legacy_snapshot_index,
}
use anvilkit_plugin_collab_y.Snapshots.Retain.{evict, over_cap, retain}
use anvilkit_plugin_collab_y.Snapshots.Save.{
  Host, Options, Store, Saving, save, new_meta, save_delta, stored, write_payload, reads_back,
  choose_payload, local_diff, prev_snapshot_id,
}
use anvilkit_plugin_collab_y.Snapshots.Load.{loaded, load, list, load_payload, delete}
use anvilkit_plugin_collab_y.Snapshots.Strict.{
  decode_snapshot_meta_strict_iff, parse_snapshot_meta-encode_meta,
}
use anvilkit_plugin_collab_y.Snapshots.Orphans.{load_payload-evict, load_payload-delete}
use anvilkit_plugin_collab_y.Snapshots.Prune.{reconstruct_payload-evict}
use anvilkit_plugin_collab_y.Snapshots.Written.{Agrees, Storable, load-save, save-Agrees}
use anvilkit_plugin_collab_y.Snapshots.Cap.{length-save}
use anvilkit_plugin_collab_y.Snapshots.Ids.{WellKeyed}
use Prim.Native.String.{compare}

abbrev root_of : String → Own
root_of kind = record {
  id = "r";
  kind = kind;
  slot = none;
  slot_kind = none;
  props = [];
  assets = none;
  meta = none;
}

abbrev page : String → PageIr
page kind = record {
  version = "1";
  root = leaf (root_of kind);
  assets = arr nil;
  metadata = obj stop;
}

abbrev host : Host
host = record {
  texts = record { date_ok = λ s. true; locale_compare = compare };
  hash_node = λ o. o.kind;
  hash_ir = λ ir. "h";
  diff_ir = λ a b. arr nil;
}

abbrev options : Options
options = record {
  native = true;
  persistent = false;
  compute_delta = true;
  max_snapshots = 0;
  local_peer = null;
}

abbrev no_snapshots : SharedMap
no_snapshots = record {
  metas = [];
  legacy_index = none;
  payloads = [];
  page_ir = none;
  last_peer = none;
}

abbrev fresh_store : Store
fresh_store = record {
  shared = no_snapshots;
  tree_writes = [];
  mirrored = [];
  conflicts = create_conflicts 5000 null;
  live = create_live_ir;
  last_local_saved_at = none;
  last_blob_checkpoint_at = none;
  queued_edits = 0;
  saves_since_keyframe = 0;
  pruned_ids = [];
  save_count = 0;
  listeners = [];
}

abbrev saving : String → String → ℕ → Saving
saving id kind now = record {
  ir = page kind;
  label = none;
  page_ir_hash = none;
  delta = none;
  new_id = id;
  saved_at = id;
  now = now;
  synced = true;
}

abbrev first_saving : Saving
first_saving = saving "s1" "Box" 10

abbrev second_saving : Saving
second_saving = saving "s2" "Card" 20

abbrev after_first : Store
after_first = (save host options fresh_store first_saving).0

kinds_apart :
    (n p : Node)
    → leaf (root_of "Card") ≡ n
    → In p (leaf (root_of "Box") ∷ [])
    → (own n).kind ≡ (own p).kind
    → own n ≡ own p
kinds_apart n p e (inl f) h = absurd (cc)
kinds_apart n p e (inr f) h = absurd f

boxes_apart :
    (prev : PageIr)
    → after_first.conflicts.last_local_ir ≡ some prev
    → NoCollision host.hash_node prev (page "Card")
unfolding save note_local_save walk create_conflicts
boxes_apart prev l n p (inl e) hp q h =
    let same : page "Box" ≡ prev = cc in
    kinds_apart n p e (subst (λ ir. In p (walk ir.root)) (sym same) hp) h
boxes_apart prev l n p (inr e) hp q h = absurd e

nothing_before : fresh_store.conflicts.last_local_ir ≡ none
unfolding create_conflicts
nothing_before = refl

storable : (kind : String) → Storable host options (page kind)
unfolding walk mem is_array_of every_item is_object
storable kind = (
  refl,
  (refl, tt),
  (tt, tt),
  λ n i. elim i [ inl e ↦ ap (λ m. node_id m == "") (sym e) | inr f ↦ absurd f ],
  refl,
  refl,
)

other : (a b : String) → (a == b) ≡ false → a ≢ b
other a b f q = cc (f, (string_eq.same_key_iff a b).1 q)

save-Agrees_example : Agrees host options (save host options fresh_store first_saving).0
unfolding over_cap new_meta save_delta get is_valid_ir_diff is_array_of every_item valid_metas
save-Agrees_example =
    save-Agrees host options fresh_store first_saving refl
      (λ prev l. absurd (cc (l, nothing_before))) (storable "Box") refl refl refl refl
      (λ prev l. absurd (cc (l, nothing_before))) refl tt

load-save_example :
    load host.texts
      (save host options after_first second_saving).0
      (save host options after_first second_saving).1
    ≡ loaded (page "Card")
unfolding over_cap new_meta save_delta get is_valid_ir_diff is_array_of every_item valid_metas put
    retain save stored write_payload reads_back choose_payload local_diff prev_snapshot_id
    read_snapshot_metas read_legacy_snapshot_index
load-save_example =
    load-save host options after_first second_saving refl
      (save-Agrees host options fresh_store first_saving refl
        (λ prev l. absurd (cc (l, nothing_before))) (storable "Box") refl refl refl refl
        (λ prev l. absurd (cc (l, nothing_before))) refl tt)
      (storable "Card") refl refl refl refl boxes_apart

-- Two snapshots on one base, as two peers that save at once leave them, and one that goes on.
abbrev one_base : SharedMap
one_base = record no_snapshots {
  payloads =
      ("a", full (page "Box"))
      ∷ ("b", delta "a" [] [] (arr nil) (obj stop))
      ∷ ("c", delta "a" [] [] (arr nil) (obj stop))
      ∷ [];
}

abbrev in_a_row : SharedMap
in_a_row = record no_snapshots {
  payloads =
      ("a", full (page "Box"))
      ∷ ("b", delta "a" [] [] (arr nil) (obj stop))
      ∷ ("c", delta "b" [] [] (arr nil) (obj stop))
      ∷ [];
}

abbrev meta_of : String → SnapshotMeta
meta_of id = record { id = id; label = none; saved_at = id; page_ir_hash = "h"; delta = none }

load_payload-evict_example :
    load_payload (evict (meta_of "a" ∷ []) (meta_of "b" ∷ meta_of "c" ∷ []) (one_base, [])).0 "c"
    ≢ loaded (page "Box")
unfolding get mem
load_payload-evict_example =
    load_payload-evict (meta_of "a" ∷ []) (meta_of "c" ∷ []) (meta_of "b") one_base [] "c" "a" [] []
      (arr nil) (obj stop) (page "Box") refl refl refl (other "b" "c" refl)

load_payload-delete_example :
    load_payload (delete options (record fresh_store { shared = one_base }) "a").shared "c"
    ≢ loaded (page "Box")
unfolding get
load_payload-delete_example =
    load_payload-delete options (record fresh_store { shared = one_base }) "c" "a" [] [] (arr nil)
      (obj stop) (page "Box") refl (other "a" "c" refl)

row_is_linear :
    (k base : String) (changed : List StoredNode) (removed : List String) (assets metadata : Json)
    → mem k ("a" ∷ []) ≡ false
    → "b" ≢ k
    → get k in_a_row.payloads ≡ some (delta base changed removed assets metadata)
    → mem base ("a" ∷ []) ≡ false
unfolding get mem
row_is_linear k base ch rm as' md v ne g =
    let based : "b" ≡ base = ground (
      arith,
      string_eq.same_key_iff "b" k,
      string_eq.same_key_iff "c" k,
      string_eq.same_key_iff "a" k,
    ) in
    subst (λ b. mem b ("a" ∷ []) ≡ false) based refl

reconstruct_payload-evict_example :
    reconstruct_payload
      (evict (meta_of "a" ∷ []) (meta_of "b" ∷ meta_of "c" ∷ []) (in_a_row, [])).0.payloads
      "c"
    ≡ ok (page "Box")
unfolding reconstruct_payload reconstruct replay mem get apply_stored_delta build overlay put_all
    del_all flatten_tree visit put build_children map_present to_stored_node from_stored_node
reconstruct_payload-evict_example =
    reconstruct_payload-evict (meta_of "a" ∷ []) (meta_of "c" ∷ []) (meta_of "b") in_a_row [] "c"
      (page "Box") row_is_linear refl refl

decode_snapshot_meta_strict_iff_example :
    (decode_snapshot_meta_strict host.texts.date_ok (some (encode_meta (meta_of "a")))
      ≡ valid (meta_of "a"))
    ↔ (parse_snapshot_meta host.texts.date_ok (some (encode_meta (meta_of "a")))
        ≡ some (meta_of "a"))
decode_snapshot_meta_strict_iff_example =
    decode_snapshot_meta_strict_iff host.texts.date_ok (some (encode_meta (meta_of "a")))
      (meta_of "a")

abbrev one_listed : Store
one_listed = record fresh_store {
  shared = record no_snapshots { metas = ("s0", some (encode_meta (meta_of "s0"))) ∷ [] };
}

abbrev capped : Options
capped = record options { max_snapshots = 1 }

one_listed-WellKeyed : WellKeyed host.texts one_listed.shared.metas
one_listed-WellKeyed k raw m (inl e) p =
    let parsed = parse_snapshot_meta-encode_meta host.texts.date_ok (meta_of "s0") refl refl refl in
    let same : some (meta_of "s0") ≡ some m =
      sym parsed ∙ ap (λ x. parse_snapshot_meta host.texts.date_ok x.1) e ∙ p in
    let ids : "s0" ≡ m.id = cc (same) in sym ids ∙ ap (λ x. x.0) e
one_listed-WellKeyed k raw m (inr e) p = absurd e

length-save_example :
    length (list host.texts (save host capped one_listed first_saving).0) ≤ capped.max_snapshots
unfolding mem new_meta save_delta is_valid_ir_diff is_array_of every_item
length-save_example =
    length-save host capped one_listed first_saving refl (refl, tt) one_listed-WellKeyed refl refl
      refl
