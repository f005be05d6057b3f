-- ===== src/Snapshots/Cached.antt =====
-- What a cache of the previous document, a keyframe and a valid record give.
use anvilkit_plugin_collab_y.Base.{
  ◌≡◌, refl, true, false, Option, none, some, any, String, ◌==◌, string_eq, arith,
}
use anvilkit_plugin_collab_y.Base.Dict.{Dict, get, put, get-put}
use anvilkit_plugin_collab_y.Ir.{Json, Own, PageIr, own, node_id}
use anvilkit_plugin_collab_y.LiveIr.{LiveIr}
use anvilkit_plugin_collab_y.LiveIr.Hashes.{get-hashes}
use anvilkit_plugin_collab_y.LiveIr.Local.{Mirrors, NoCollision}
use anvilkit_plugin_collab_y.NativeTree.Diff.{diff_ir_nodes_for_local_save, content_changed}
use anvilkit_plugin_collab_y.NativeTree.Diff.Laws.{UniqueIds}
use anvilkit_plugin_collab_y.PayloadChain.{StoredPayload, full, ok, reconstruct_payload}
use anvilkit_plugin_collab_y.PayloadChain.Chain.{reconstruct_payload_iff, key}
use anvilkit_plugin_collab_y.PayloadChain.Replay.{Detects}
use anvilkit_plugin_collab_y.Snapshots.Meta.{SnapshotMeta, decode_snapshot_meta_strict, valid}
use anvilkit_plugin_collab_y.Snapshots.Index.{Texts, read_snapshot_metas}
use anvilkit_plugin_collab_y.Snapshots.Save.{Store}
use anvilkit_plugin_collab_y.Snapshots.Load.{load, load_listed, load_payload}

pub full_loads :
    (payloads : Dict String StoredPayload) (id : String) (ir : PageIr)
    → reconstruct_payload (put id (full ir) payloads) id ≡ ok ir
full_loads payloads id ir =
    (reconstruct_payload_iff (put id (full ir) payloads) id ir).1
      (0, key (ground (arith, get-put id id (full ir) payloads, string_eq.same_key_iff id id)))

-- A cache of the previous document makes the comparison by hashes exact.
pub cached-Detects :
    (hash_node : Own → String) (live : LiveIr) (prev next : PageIr)
    → Mirrors hash_node live prev
    → NoCollision hash_node prev next
    → UniqueIds prev.root
    → Detects hash_node (some live.hashes) prev next
unfolding content_changed
cached-Detects hash_node live prev next holds apart once n p hn hp e f =
    let h = get-hashes hash_node live prev next holds once n p hp e in
    apart n p hn hp e
      (ground (arith, h, string_eq.same_key_iff (hash_node (own n)) (hash_node (own p))))

pub get_written :
    {V : Type 0} (id : String) (v : V) (d : Dict String V) → get id (put id v d) ≡ some v
get_written id v d = ground (arith, get-put id id v d, string_eq.same_key_iff id id)

pub some_inj : {A : Type 0} (a b : A) → some a ≡ some b → a ≡ b
some_inj a b h = cc

-- With a valid record that is listed a load comes down to the payload.
pub load_valid :
    (texts : Texts) (t : Store) (id : String) (raw : Option Json) (m : SnapshotMeta)
    → get id t.shared.metas ≡ some raw
    → decode_snapshot_meta_strict texts.date_ok raw ≡ valid m
    → any (λ x. x.id == id) (read_snapshot_metas texts t.shared) ≡ true
    → load texts t id ≡ load_payload t.shared id
unfolding load load_listed
load_valid texts t id raw m g d l = rw (g, load, d, l, load_listed) refl

module _ (hash_node : Own → String) (hashes : Option (Dict String String)) where
  pub no_previous :
      (next : PageIr) → (diff_ir_nodes_for_local_save hash_node hashes none next).structural ≡ true
  unfolding diff_ir_nodes_for_local_save
  no_previous next = refl

  pub other_root :
      (prev next : PageIr)
      → (node_id prev.root == node_id next.root) ≡ false
      → (diff_ir_nodes_for_local_save hash_node hashes (some prev) next).structural ≡ true
  unfolding diff_ir_nodes_for_local_save
  other_root prev next f = rw (f) refl
