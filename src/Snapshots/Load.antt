-- ===== src/Snapshots/Load.antt =====
-- src/utils/snapshots.ts: reading, deleting and re-emitting snapshots. A thrown error is a value.
use anvilkit_plugin_collab_y.Base.{
  ℕ, Bool, false, Option, none, some, List, [], ◌∷◌, ◌++◌, any, String, ◌==◌, string_eq, nat_eq,
  if◌then◌else◌, keep, length,
}
use anvilkit_plugin_collab_y.Base.Dict.{get, has}
use anvilkit_plugin_collab_y.Base.IdSet.{mem, add, discard}
use anvilkit_plugin_collab_y.Ir.{Json, PageIr}
use anvilkit_plugin_collab_y.Conflicts.{set_last_local_ir, close_window}
use anvilkit_plugin_collab_y.LiveIr.{seed_from_ir}
use anvilkit_plugin_collab_y.PayloadChain.{
  StoredPayload, full, delta, ok, err, ChainError, reconstruct_payload,
}
use anvilkit_plugin_collab_y.Snapshots.Meta.{
  SnapshotMeta, MetaDefect, valid, defect, decode_snapshot_meta_strict,
}
use anvilkit_plugin_collab_y.Snapshots.Index.{SharedMap, Texts, read_snapshot_metas}
use anvilkit_plugin_collab_y.Snapshots.Retain.{delete_snapshot}
use anvilkit_plugin_collab_y.Snapshots.Save.{
  Store, Host, Options, apply_ir, mirror_delete, mirror, last_of_list,
}

-- `SnapshotCorruptedError` with its cause, `SnapshotPrunedError` and `SnapshotNotFoundError`.
pub data LoadError : Type 0 where
  bad_meta : MetaDefect → LoadError
  no_payload : LoadError
  bad_chain : ChainError → LoadError
  undecodable not_self_contained : LoadError
  pruned not_found : LoadError

pub data Loaded : Type 0 where
  loaded : PageIr → Loaded
  failed : LoadError → Loaded

unfoldable pub load_payload : SharedMap → String → Loaded
load_payload s id = elim (get id s.payloads) [
  | none ↦ failed no_payload
  | some p ↦ elim (reconstruct_payload s.payloads id) [
    | ok ir ↦ loaded ir
    | err e ↦ failed (bad_chain e)
  ]
]

unfoldable pub load_listed : Texts → SharedMap → List String → String → Loaded
load_listed texts s pruned_ids id =
    if any (λ m. m.id == id) (read_snapshot_metas texts s)
    then load_payload s id
    else failed (if mem id pruned_ids then pruned else not_found)

unfoldable pub load : Texts → Store → String → Loaded
load texts s id = elim (get id s.shared.metas) [
  | none ↦ load_listed texts s.shared s.pruned_ids id
  | some raw ↦ elim (decode_snapshot_meta_strict texts.date_ok raw) [
    | defect d ↦ failed (bad_meta d)
    | valid m ↦ load_listed texts s.shared s.pruned_ids id
  ]
]

unfoldable pub list : Texts → Store → List SnapshotMeta
list texts s = read_snapshot_metas texts s.shared

unfoldable pub delete : Options → Store → String → Store
delete options s id = record s {
  shared = delete_snapshot id s.shared;
  mirrored = mirror options (mirror_delete id) s.mirrored;
}

-- The document that a resync re-emits: that of the snapshot listed last.
unfoldable pub latest_document : Texts → SharedMap → Option PageIr
latest_document texts s = elim (last_of_list (read_snapshot_metas texts s)) [
  | none ↦ none
  | some m ↦
      if has m.id s.payloads
      then elim (reconstruct_payload s.payloads m.id) [ ok ir ↦ some ir | err e ↦ none ]
      else none
]

-- The state after a resync to a document.
unfoldable pub restore : Host → Options → ℕ → PageIr → Store → Store
restore host options now ir s = record s {
  tree_writes =
      if options.native
      then s.tree_writes ++ (apply_ir ir s.conflicts.last_local_ir ∷ [])
      else s.tree_writes;
  shared = record s.shared { page_ir = some ir; last_peer = some options.local_peer };
  last_blob_checkpoint_at = some now;
  live = if options.native then seed_from_ir host.hash_node s.live ir else s.live;
  conflicts = close_window (set_last_local_ir s.conflicts ir);
  last_local_saved_at = some now;
}

-- `forceResync`, with the listeners that it calls.
unfoldable pub force_resync : Host → Options → ℕ → Store → Store × Option (PageIr × List ℕ)
force_resync host options now s = elim (latest_document host.texts s.shared) [
  | none ↦ (s, none)
  | some ir ↦ (restore host options now ir s, some (ir, s.listeners))
]

-- `from_tree` is what `readNativeTree` reads where there is a tree, and `has_version` whether
-- the tree holds a version key; the flag says that the adapter is marked degraded.
unfoldable pub read_current_ir : Options → Option PageIr → Bool → SharedMap → Option PageIr × Bool
read_current_ir options from_tree has_version s =
    if options.native
    then elim from_tree [ some ir ↦ (some ir, false) | none ↦ (s.page_ir, has_version) ]
    else (s.page_ir, false)

unfoldable pub read_last_peer : {P : Type 0} → (Json → Option P) → SharedMap → Option P
read_last_peer validate s = elim s.last_peer [ none ↦ none | some raw ↦ validate raw ]

-- A record of the persistence sink: its decoded payload, `none` where it does not decode.
unfoldable pub load_persisted_snapshot :
    Options
    → (String → Option StoredPayload)
    → Option (String → String)
    → Option String
    → Option Loaded
load_persisted_snapshot options decode transform stored =
    if options.persistent
    then elim stored [
      | none ↦ none
      | some text ↦ elim (decode (elim transform [ none ↦ text | some f ↦ f text ])) [
        | some (full ir) ↦ some (loaded ir)
        | some (delta base changed removed assets metadata) ↦ some (failed not_self_contained)
        | none ↦ some (failed undecodable)
      ]
    ]
    else none

unfoldable pub get_last_local_saved_at : Store → Option ℕ
get_last_local_saved_at s = s.last_local_saved_at

unfoldable pub reset_queued_edits : Store → Store
reset_queued_edits s = record s { queued_edits = 0 }

unfoldable pub subscribe : Store → ℕ → Store
subscribe s listener = record s { listeners = add listener s.listeners }

unfoldable pub unsubscribe : Store → ℕ → Store
unsubscribe s listener = record s { listeners = discard listener s.listeners }

-- The listeners that a dispatch calls, and the count of those that throw.
unfoldable pub emit_to_subscribers : (ℕ → Bool) → Store → List ℕ × ℕ
emit_to_subscribers throws s = (s.listeners, length (keep throws s.listeners))
