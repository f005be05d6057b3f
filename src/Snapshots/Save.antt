-- ===== src/Snapshots/Save.antt =====
-- src/utils/snapshots.ts: the state of the module and `save`.
use anvilkit_plugin_collab_y.Base.{
  ℕ, ◌+◌, ◌-◌, Bool, true, false, not, ◌&&◌, ◌||◌, Option, none, some, is_some, or_else, List, [],
  ◌∷◌, ◌++◌, String, ◌==◌, string_eq, if◌then◌else◌, ltb, leb,
}
use anvilkit_plugin_collab_y.Base.Dict.{Dict, put, del}
use anvilkit_plugin_collab_y.Ir.{Json, Own, leaf, PageIr, arr, nil, obj, stop}
use anvilkit_plugin_collab_y.Conflicts.{Conflicts, note_local_save}
use anvilkit_plugin_collab_y.LiveIr.{LiveIr, seed_from_ir, set_local_changed}
use anvilkit_plugin_collab_y.NativeTree.Diff.{LocalDiff, diff_ir_nodes_for_local_save}
use anvilkit_plugin_collab_y.PayloadChain.{
  StoredPayload, full, delta, build_delta_payload, keyframe_interval,
}
use anvilkit_plugin_collab_y.PayloadChain.Records.{
  encode_delta, decode_payload, keyframe, delta_record, refused,
}
use anvilkit_plugin_collab_y.Snapshots.Meta.{SnapshotMeta, encode_meta}
use anvilkit_plugin_collab_y.Snapshots.Index.{SharedMap, Texts, read_snapshot_metas}
use anvilkit_plugin_collab_y.Snapshots.Retain.{retain}

abbrev pub blob_checkpoint_ms : ℕ
blob_checkpoint_ms = 5000

-- The calls that write the native tree, and those of the persistence sink (its payload before
-- it is encoded).
pub data TreeWrite : Type 0 where
  apply_changed : PageIr → Option PageIr → LocalDiff → TreeWrite
  apply_ir : PageIr → Option PageIr → TreeWrite

pub data MirrorCall : Type 0 where
  mirror_save : SnapshotMeta → StoredPayload → MirrorCall
  mirror_delete : String → MirrorCall

-- What the module is created with: whether there is a native tree and a persistence sink.
pub record Options : Type 0 where
  pub native : Bool
  pub persistent : Bool
  pub compute_delta : Bool
  pub max_snapshots : ℕ
  pub local_peer : Json

-- The platform's functions and those of other packages: `hashNodeContent`, `hashIR` of the
-- encoded document, and `diffIR`.
pub record Host : Type 0 where
  pub texts : Texts
  pub hash_node : Own → String
  pub hash_ir : PageIr → String
  pub diff_ir : PageIr → PageIr → Json

pub record Store : Type 0 where
  pub shared : SharedMap
  pub tree_writes : List TreeWrite
  pub mirrored : List MirrorCall
  pub conflicts : Conflicts
  pub live : LiveIr
  pub last_local_saved_at : Option ℕ
  pub last_blob_checkpoint_at : Option ℕ
  pub queued_edits : ℕ
  pub saves_since_keyframe : ℕ
  pub pruned_ids : List String
  pub save_count : ℕ
  pub listeners : List ℕ

-- The arguments of a save, and what it reads meanwhile: the new id, the times, the status.
pub record Saving : Type 0 where
  pub ir : PageIr
  pub label : Option String
  pub page_ir_hash : Option String
  pub delta : Option Json
  pub new_id : String
  pub saved_at : String
  pub now : ℕ
  pub synced : Bool

abbrev pub empty_ir : PageIr
empty_ir = record {
  version = "1";
  root = leaf (record {
    id = "__empty__";
    kind = "__empty__";
    slot = none;
    slot_kind = none;
    props = [];
    assets = none;
    meta = none;
  });
  assets = arr nil;
  metadata = obj stop;
}

abbrev pub last_of_list : {A : Type 0} → List A → Option A
last_of_list [] = none
last_of_list (x ∷ []) = some x
last_of_list (x ∷ y ∷ ys) = last_of_list (y ∷ ys)

abbrev pub mirror : Options → MirrorCall → List MirrorCall → List MirrorCall
mirror options call calls = if options.persistent then calls ++ (call ∷ []) else calls

abbrev pub is_keyframe : StoredPayload → Bool
is_keyframe (full ir) = true
is_keyframe _ = false

unfoldable pub prev_snapshot_id : Texts → SharedMap → Option String
prev_snapshot_id texts shared = elim (last_of_list (read_snapshot_metas texts shared)) [
  | some m ↦ some m.id
  | none ↦ none
]

-- A keyframe, or a delta against the snapshot that is listed last.
unfoldable pub choose_payload : Option LocalDiff → Option String → ℕ → PageIr → StoredPayload
choose_payload (some d) (some base) saves ir =
    if not d.structural && ltb saves keyframe_interval
    then build_delta_payload base ir d.changed d.removed
    else full ir
choose_payload _ _ saves ir = full ir

unfoldable pub tree_write : Option LocalDiff → PageIr → Option PageIr → List TreeWrite
tree_write none ir previous = []
tree_write (some d) ir previous =
    if d.structural then apply_ir ir previous ∷ [] else apply_changed ir previous d ∷ []

-- Whether `decodePayload` takes the text that `encodePayload` writes. A keyframe's root is an
-- object, so its version alone decides.
unfoldable pub reads_back : StoredPayload → Bool
reads_back (full ir) = ir.version == "1"
reads_back (delta base changed removed assets metadata) =
    elim (decode_payload (some (encode_delta base changed removed assets metadata))) [
      | delta_record v ↦ true
      | keyframe v ↦ false
      | refused why ↦ false
    ]

-- `payloadBackend.write`, as the records of the map show it: a text that is not decoded again
-- takes the place of what was there and counts as absent.
unfoldable pub write_payload :
    String → StoredPayload → Dict String StoredPayload → Dict String StoredPayload
write_payload id payload payloads =
    if reads_back payload then put id payload payloads else del id payloads

unfoldable pub stored : Store → SnapshotMeta → StoredPayload → SharedMap
stored s m payload = record s.shared {
  payloads = write_payload m.id payload s.shared.payloads;
  metas = put m.id (some (encode_meta m)) s.shared.metas;
}

module _ (host : Host) (options : Options) where
  unfoldable pub save_delta : Option PageIr → Saving → Option Json
  save_delta previous c =
      if options.compute_delta || is_some c.delta
      then some (or_else c.delta (host.diff_ir (or_else previous empty_ir) c.ir))
      else none

  unfoldable pub new_meta : Option PageIr → Saving → SnapshotMeta
  new_meta previous c = record {
    id = c.new_id;
    label = c.label;
    saved_at = c.saved_at;
    page_ir_hash = or_else c.page_ir_hash (host.hash_ir c.ir);
    delta = save_delta previous c;
  }

  unfoldable pub write_blob : Store → ℕ → Bool
  write_blob s now = not options.native || elim s.last_blob_checkpoint_at [
    | none ↦ true
    | some at ↦ leb blob_checkpoint_ms (now - at)
  ]

  unfoldable pub local_diff : Store → PageIr → Option LocalDiff
  local_diff s ir =
      if options.native
      then some (
          diff_ir_nodes_for_local_save host.hash_node (some s.live.hashes) s.conflicts.last_local_ir
            ir)
      else none

  unfoldable pub live_write : Option LocalDiff → PageIr → LiveIr → LiveIr
  live_write none ir live = live
  live_write (some d) ir live =
      if d.structural
      then seed_from_ir host.hash_node live ir
      else set_local_changed host.hash_node live ir d.changed d.removed

  unfoldable pub save : Store → Saving → Store × String
  save s c =
      let previous = s.conflicts.last_local_ir in
      let m = new_meta previous c in
      let blob = write_blob s c.now in
      let d = local_diff s c.ir in
      let payload =
        choose_payload d (prev_snapshot_id host.texts s.shared) s.saves_since_keyframe c.ir in
      let (shared, pruned) =
        retain host.texts options.max_snapshots (stored s m payload, s.pruned_ids) in
      (
        record s {
          shared = record shared {
            page_ir = if blob then some c.ir else shared.page_ir;
            last_peer = some options.local_peer;
          };
          tree_writes = s.tree_writes ++ tree_write d c.ir previous;
          last_blob_checkpoint_at = if blob then some c.now else s.last_blob_checkpoint_at;
          saves_since_keyframe = if is_keyframe payload then 0 else s.saves_since_keyframe + 1;
          live = live_write d c.ir s.live;
          conflicts = note_local_save s.conflicts c.ir c.now;
          last_local_saved_at = some c.now;
          save_count = s.save_count + 1;
          queued_edits = if c.synced then s.queued_edits else s.queued_edits + 1;
          pruned_ids = pruned;
          mirrored = mirror options (mirror_save m (full c.ir)) s.mirrored;
        },
        m.id,
      )
