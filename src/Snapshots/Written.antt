-- ===== src/Snapshots/Written.antt =====
-- What a save writes is what a load reads, for one writer after another save of its own.
use anvilkit_plugin_collab_y.Base.{
  ◌≡◌, refl, sym, ap, ◌∙◌, ◌≢◌, subst, ◌⊎◌, inl, inr, true, false, Option, none, some, All, any,
  String, ◌==◌, string_eq, beq-cases, arith, ltb, Bool-cases, Option-cases, Ordering,
}
use anvilkit_plugin_collab_y.Base.Dict.{get, put}
use anvilkit_plugin_collab_y.Ir.{PageIr, node_id}
use anvilkit_plugin_collab_y.Conflicts.{note_local_save}
use anvilkit_plugin_collab_y.LiveIr.{LiveIr}
use anvilkit_plugin_collab_y.LiveIr.Local.{
  Mirrors, NoCollision, seed_from_ir-Mirrors, set_local_changed-Mirrors,
}
use anvilkit_plugin_collab_y.NativeTree.Diff.{diff_ir_nodes_for_local_save}
use anvilkit_plugin_collab_y.NativeTree.Diff.Laws.{UniqueIds, diff_by_id}
use anvilkit_plugin_collab_y.PayloadChain.{
  StoredPayload, full, ok, build_delta_payload, reconstruct_payload, keyframe_interval,
}
use anvilkit_plugin_collab_y.PayloadChain.Records.{is_array}
use anvilkit_plugin_collab_y.Snapshots.Readable.{Filled, diff-reads_back}
use anvilkit_plugin_collab_y.PayloadChain.Chain.{reconstruct_payload-build_delta_payload}
use anvilkit_plugin_collab_y.PayloadChain.Rebuild.{IsCanonical}
use anvilkit_plugin_collab_y.Ir.Access.{optional, is_object}
use anvilkit_plugin_collab_y.Snapshots.Meta.{
  SnapshotMeta, is_valid_ir_diff, encode_meta, parse_snapshot_meta,
}
use anvilkit_plugin_collab_y.Snapshots.Index.{
  compare_snapshot_meta, valid_metas, read_snapshot_metas,
}
use anvilkit_plugin_collab_y.Snapshots.Retain.{over_cap, retain}
use anvilkit_plugin_collab_y.Snapshots.Save.{
  Host, Options, Store, Saving, new_meta, local_diff, prev_snapshot_id, choose_payload, live_write,
  reads_back, write_payload, stored, save,
}
use anvilkit_plugin_collab_y.Snapshots.Load.{loaded, load, load_payload}
use anvilkit_plugin_collab_y.Snapshots.Strict.{
  decode_snapshot_meta_strict_iff, parse_snapshot_meta-encode_meta,
}
use anvilkit_plugin_collab_y.Snapshots.Listed.{
  any-read_snapshot_metas, last-read_snapshot_metas, valid_metas-put,
}
use anvilkit_plugin_collab_y.Snapshots.Cached.{
  full_loads, cached-Detects, get_written, some_inj, load_valid, no_previous, other_root,
}

module _ (host : Host) (options : Options) where
  -- A document that a snapshot can hold without loss: of version 1, with unique ids and none of
  -- them empty, no empty children array, its assets an array and its metadata an object.
  abbrev pub Storable : PageIr → Type 0
  Storable ir =
      (ir.version ≡ "1")
      × UniqueIds ir.root
      × IsCanonical ir.root
      × Filled ir
      × (is_array (some ir.assets) ≡ true)
      × (is_object ir.metadata ≡ true)

  -- The local state agrees: the last local document is the one that the cache holds and that
  -- the snapshot listed last, which has an id, loads as.
  abbrev pub Agrees : Store → Type 0
  Agrees s =
      (prev : PageIr)
      → s.conflicts.last_local_ir ≡ some prev
      → (options.native ≡ true → Mirrors host.hash_node s.live prev)
        × Storable prev
        × ((base : String)
            → prev_snapshot_id host.texts s.shared ≡ some base
            → ((base == "") ≡ false) × (reconstruct_payload s.shared.payloads base ≡ ok prev))

  live_written :
      (live : LiveIr) (last : Option PageIr) (ir : PageIr)
      → ((prev : PageIr)
          → last ≡ some prev
          → Mirrors host.hash_node live prev × NoCollision host.hash_node prev ir)
      → Mirrors host.hash_node
          (live_write host options
            (some (diff_ir_nodes_for_local_save host.hash_node (some live.hashes) last ir))
            ir
            live)
          ir
  unfolding live_write
  live_written live none ir h =
      rw (no_previous host.hash_node (some live.hashes) ir)
        (seed_from_ir-Mirrors host.hash_node live ir)
  live_written live (some prev) ir h = elim (beq-cases (node_id prev.root) (node_id ir.root)) [
    | inr (f, q) ↦
        rw (other_root host.hash_node (some live.hashes) prev ir f)
          (seed_from_ir-Mirrors host.hash_node live ir)
    | inl (e, q) ↦
        rw (diff_by_id host.hash_node (some live.hashes) prev ir "" q).0
          (set_local_changed-Mirrors host.hash_node live prev ir (h prev refl).0 q (h prev refl).1)
  ]

  module _ (s : Store) (c : Saving) where
    abbrev payload : StoredPayload
    payload =
        choose_payload (local_diff host options s c.ir) (prev_snapshot_id host.texts s.shared)
          s.saves_since_keyframe c.ir

    abbrev m : SnapshotMeta
    m = new_meta host options s.conflicts.last_local_ir c

    payload-cases :
        (payload ≡ full c.ir)
        ⊎ ((prev : PageIr) × (base : String) × (options.native ≡ true)
            × (s.conflicts.last_local_ir ≡ some prev)
            × (prev_snapshot_id host.texts s.shared ≡ some base)
            × (node_id prev.root ≡ node_id c.ir.root)
            × (payload ≡ (
                let d =
                  diff_ir_nodes_for_local_save host.hash_node
                    (some s.live.hashes)
                    (some prev)
                    c.ir in
                build_delta_payload base c.ir d.changed d.removed)))
    unfolding choose_payload local_diff
    payload-cases = elim (Bool-cases options.native) [
      | inr f ↦ inl (rw (f) refl)
      | inl t ↦ elim (Option-cases (prev_snapshot_id host.texts s.shared)) [
        | inl g ↦ inl (rw (t, g) refl)
        | inr (base, g) ↦ elim (Option-cases s.conflicts.last_local_ir) [
          | inl l ↦ inl (rw (t, g, l, no_previous host.hash_node (some s.live.hashes) c.ir) refl)
          | inr (prev, l) ↦ elim (beq-cases (node_id prev.root) (node_id c.ir.root)) [
            | inr (f, q) ↦
                inl (rw (t, g, l, other_root host.hash_node (some s.live.hashes) prev c.ir f) refl)
            | inl (e, q) ↦
                let kept = (diff_by_id host.hash_node (some s.live.hashes) prev c.ir "" q).0 in
                elim (Bool-cases (ltb s.saves_since_keyframe keyframe_interval)) [
                  | inl b ↦ inr (prev, base, t, l, g, q, rw (t, g, l, kept, b) refl)
                  | inr b ↦ inl (rw (t, g, l, kept, b) refl)
                ]
          ]
        ]
      ]
    ]

    -- The record that a save writes leads to the saved document.
    payload-loads :
        Agrees s
        → Storable c.ir
        → get c.new_id s.shared.payloads ≡ none
        → ((prev : PageIr)
            → s.conflicts.last_local_ir ≡ some prev
            → NoCollision host.hash_node prev c.ir)
        → reconstruct_payload (put c.new_id payload s.shared.payloads) c.new_id ≡ ok c.ir
    payload-loads agrees fine fresh apart = elim payload-cases [
      | inl e ↦ rw (e) (full_loads s.shared.payloads c.new_id c.ir)
      | inr (prev, base, t, l, g, q, e) ↦
          let (holds, was, based) = agrees prev l in
          rw (e) (
            reconstruct_payload-build_delta_payload host.hash_node (some s.live.hashes)
              s.shared.payloads base c.new_id prev c.ir (based base g).1 fresh fine.0 q was.1 fine.1
              was.2 fine.2
              (cached-Detects host.hash_node s.live prev c.ir (holds t) (apart prev l) was.1))
    ]

    -- What the save writes is decoded again.
    payload-reads_back : Agrees s → Storable c.ir → reads_back payload ≡ true
    unfolding reads_back
    payload-reads_back agrees fine = elim payload-cases [
      | inl e ↦ rw (e) ((string_eq.same_key_iff c.ir.version "1").1 fine.0)
      | inr (prev, base, t, l, g, q, e) ↦
          let (holds, was, based) = agrees prev l in
          ap reads_back e
          ∙ diff-reads_back host.hash_node (some s.live.hashes) prev c.ir base q (based base g).0
              was.3 fine.3 fine.4 fine.5
    ]

    abbrev after : Store
    after = (save host options s c).0

    module _ (room : over_cap host.texts options.max_snapshots (stored s m payload) ≡ false) where
      after_written : after.shared.payloads ≡ write_payload c.new_id payload s.shared.payloads
      unfolding save retain stored new_meta
      after_written = rw (room) refl

      after_metas : after.shared.metas ≡ put c.new_id (some (encode_meta m)) s.shared.metas
      unfolding save retain stored new_meta
      after_metas = rw (room) refl

      after_index : after.shared.legacy_index ≡ s.shared.legacy_index
      unfolding save retain stored
      after_index = rw (room) refl

      module _ (agrees : Agrees s) (fine : Storable c.ir) (named : (c.new_id == "") ≡ false)
          (dated : host.texts.date_ok c.saved_at ≡ true)
          (differs : optional is_valid_ir_diff m.delta ≡ true)
          (fresh : get c.new_id s.shared.payloads ≡ none)
          (apart : (prev : PageIr)
            → s.conflicts.last_local_ir ≡ some prev
            → NoCollision host.hash_node prev c.ir) where
        after_payloads : after.shared.payloads ≡ put c.new_id payload s.shared.payloads
        unfolding write_payload
        after_payloads = after_written ∙ rw (payload-reads_back agrees fine) refl

        parsed : parse_snapshot_meta host.texts.date_ok (some (encode_meta m)) ≡ some m
        unfolding new_meta
        parsed = parse_snapshot_meta-encode_meta host.texts.date_ok m named dated differs

        reads : reconstruct_payload after.shared.payloads c.new_id ≡ ok c.ir
        reads =
            ap (λ p. reconstruct_payload p c.new_id) after_payloads
            ∙ payload-loads agrees fine fresh apart

        meta_there : get c.new_id after.shared.metas ≡ some (some (encode_meta m))
        meta_there = ap (get c.new_id) after_metas ∙ get_written c.new_id _ s.shared.metas

        listed_there :
            any (λ x. x.id == c.new_id) (read_snapshot_metas host.texts after.shared) ≡ true
        unfolding new_meta
        listed_there =
            any-read_snapshot_metas host.texts after.shared c.new_id (some (encode_meta m)) m
              meta_there parsed

        load_payload-after : load_payload after.shared c.new_id ≡ loaded c.ir
        unfolding load_payload
        load_payload-after =
            rw
              (
                ap (get c.new_id) after_payloads ∙ get_written c.new_id payload s.shared.payloads,
                load_payload,
                reads,
              )
              refl

        returned : (save host options s c).1 ≡ c.new_id
        unfolding save new_meta
        returned = refl

        -- A save can be loaded: the id that it returns loads as the saved document, whether its
        -- record is a keyframe or a delta, through the check of a record that is read. The local
        -- state agrees; the document is of version 1, with unique ids, none of them empty, no
        -- empty children array, an array of assets and an object of metadata; the new id is not empty
        -- and has no record, the time and the diff are valid, the cap is not exceeded, and hashes
        -- do not collide.
        pub load-save :
            load host.texts (save host options s c).0 (save host options s c).1 ≡ loaded c.ir
        load-save =
            ap (load host.texts after) returned
            ∙ load_valid host.texts after c.new_id (some (encode_meta m)) m meta_there
                ((decode_snapshot_meta_strict_iff host.texts.date_ok (some (encode_meta m)) m).1
                  parsed)
                listed_there
            ∙ load_payload-after

        named_so : some m.id ≡ some c.new_id
        unfolding new_meta
        named_so = refl

        live_after : options.native ≡ true → Mirrors host.hash_node after.live c.ir
        unfolding save local_diff live_write
        live_after t = rw t (
            live_written s.live s.conflicts.last_local_ir c.ir
              (λ prev l. ((agrees prev l).0 t, apart prev l)))

        last_after : after.conflicts.last_local_ir ≡ some c.ir
        unfolding save note_local_save
        last_after = ground (arith, Option-cases s.conflicts.first_unconfirmed_at)

        last_listed :
            get c.new_id s.shared.metas ≡ none
            → All
                (λ x. compare_snapshot_meta host.texts x m ≢ Ordering.gt)
                (valid_metas host.texts s.shared.metas)
            → prev_snapshot_id host.texts after.shared ≡ some c.new_id
        unfolding prev_snapshot_id
        last_listed unlisted newest =
            rw
              (
                last-read_snapshot_metas host.texts after.shared
                    (valid_metas host.texts s.shared.metas) m
                    (ap (valid_metas host.texts) after_metas
                      ∙ valid_metas-put host.texts c.new_id (some (encode_meta m)) m s.shared.metas
                          unlisted parsed)
                    newest,
                prev_snapshot_id,
              )
              named_so

        -- A save keeps the agreement of the local state, under the conditions of a save that can
        -- be loaded, when the new record sorts after the valid ones and its id has no metadata yet.
        pub save-Agrees :
            get c.new_id s.shared.metas ≡ none
            → All
                (λ x. compare_snapshot_meta host.texts x m ≢ Ordering.gt)
                (valid_metas host.texts s.shared.metas)
            → Agrees (save host options s c).0
        save-Agrees unlisted newest prev l =
            let same : c.ir ≡ prev = some_inj c.ir prev (sym last_after ∙ l) in
            subst
              (λ ir.
                (options.native ≡ true → Mirrors host.hash_node after.live ir)
                × Storable ir
                × ((base : String)
                    → prev_snapshot_id host.texts after.shared ≡ some base
                    → ((base == "") ≡ false)
                      × (reconstruct_payload after.shared.payloads base ≡ ok ir)))
              same
              (
                λ t. live_after t,
                fine,
                λ base g.
                    subst
                      (λ b.
                        ((b == "") ≡ false)
                        × (reconstruct_payload after.shared.payloads b ≡ ok c.ir))
                      (some_inj c.new_id base (sym (last_listed unlisted newest) ∙ g))
                      (named, reads),
              )
