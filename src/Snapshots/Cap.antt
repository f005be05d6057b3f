-- ===== src/Snapshots/Cap.antt =====
-- The bound on the number of snapshots that a save leaves.
use anvilkit_plugin_collab_y.Base.{
  ℕ, ◌+◌, ◌-◌, ◌≤◌, ◌<◌, ◌≡◌, refl, sym, ap, subst, ◌∙◌, inl, inr, true, false, Option, some, List,
  [], ◌∷◌, map, length, take, In, String, ◌==◌, string_eq, beq-cases, if◌then◌else◌, ltb, arith,
  Bool-cases,
}
use anvilkit_plugin_collab_y.Base.Dict.{
  Dict, keys, put, del, In-put, In-of_get, get-put, put-Distinct,
}
use anvilkit_plugin_collab_y.Base.IdSet.{
  mem, Distinct, length-discard, mem-discard, discard-Distinct,
}
use anvilkit_plugin_collab_y.Ir.{Json, PageIr}
use anvilkit_plugin_collab_y.Ir.Access.{optional}
use anvilkit_plugin_collab_y.Snapshots.Meta.{
  SnapshotMeta, parse_snapshot_meta, encode_meta, is_valid_ir_diff,
}
use anvilkit_plugin_collab_y.Snapshots.Index.{
  SharedMap, Texts, sort_metas, valid_metas, read_snapshot_metas, read_legacy_snapshot_index,
}
use anvilkit_plugin_collab_y.Snapshots.Retain.{
  delete_snapshot, remember_pruned, re_root, evict_all, evict, over_cap, retain,
}
use anvilkit_plugin_collab_y.Snapshots.Save.{
  Host, Options, Store, Saving, new_meta, stored, save, choose_payload, local_diff,
  prev_snapshot_id, write_blob,
}
use anvilkit_plugin_collab_y.Snapshots.Load.{list}
use anvilkit_plugin_collab_y.Snapshots.Orphans.{ids}
use anvilkit_plugin_collab_y.Snapshots.Listed.{valid_metas-In}
use anvilkit_plugin_collab_y.Snapshots.Strict.{parse_snapshot_meta-encode_meta}
use anvilkit_plugin_collab_y.Snapshots.Ids.{
  length-ids, length-take, mem-ids-take, take-Distinct, In-del, WellKeyed, ids-del, mem-ids-sort,
  length-sort, sort-Distinct, valid_metas-Distinct,
}

module _ (texts : Texts) where
  -- Each victim that is listed is one less.
  length-evict_all :
      (vs : List SnapshotMeta) (s : SharedMap) (pruned : List String)
      → WellKeyed texts s.metas
      → Distinct (ids (valid_metas texts s.metas))
      → Distinct (ids vs)
      → ((k : String) → mem k (ids (valid_metas texts s.metas)) ≡ false → mem k (ids vs) ≡ false)
      → length (valid_metas texts (evict_all vs (s, pruned)).0.metas) + length vs
        ≡ length (valid_metas texts s.metas)
  unfolding evict_all mem delete_snapshot
  length-evict_all [] s pruned w d dv there = omega arith
  length-evict_all (v ∷ vs) s pruned w d dv there =
      let gone = ids-del texts v.id s.metas w in
      let here : mem v.id (ids (valid_metas texts s.metas)) ≡ true =
        ground (arith, there v.id, string_eq.same_key_iff v.id v.id) in
      let one = length-discard v.id (ids (valid_metas texts s.metas)) d here in
      let ih =
        length-evict_all vs (delete_snapshot v.id s) (remember_pruned v.id pruned)
          (λ k r m h. w k r m (In-del v.id (k, r) s.metas h))
          (subst Distinct (sym gone) (discard-Distinct v.id (ids (valid_metas texts s.metas)) d))
          dv.1
          (λ k h. elim (beq-cases v.id k) [
            | inl (t, q) ↦ subst (λ i. mem i (ids vs) ≡ false) q dv.0
            | inr (f, q) ↦
                let kept : mem k (ids (valid_metas texts s.metas)) ≡ false = ground (
                  arith,
                  mem-discard k v.id (ids (valid_metas texts s.metas)),
                  ap (mem k) gone,
                  h,
                ) in
                ground (arith, there k kept)
          ]) in
      omega (
        arith,
        ih,
        one,
        length-ids (valid_metas texts s.metas),
        length-ids (valid_metas texts (del v.id s.metas)),
        ap length gone,
      )

  length-read :
      (s : SharedMap)
      → ltb 0 (length (valid_metas texts s.metas)) ≡ true
      → read_snapshot_metas texts s ≡ sort_metas texts (valid_metas texts s.metas)
  unfolding read_snapshot_metas
  length-read s h = from_list (valid_metas texts s.metas) h
    where
      from_list :
          (ms : List SnapshotMeta)
          → ltb 0 (length ms) ≡ true
          → (elim ms [
            | [] ↦ read_legacy_snapshot_index texts s.legacy_index
            | y ∷ ys ↦ sort_metas texts (y ∷ ys)
          ])
            ≡ sort_metas texts ms
      from_list [] h = absurd (cc (h))
      from_list (y ∷ ys) h = refl

  under_cap :
      (max : ℕ) (s : SharedMap)
      → ltb 0 max ≡ true
      → over_cap texts max s ≡ false
      → length (read_snapshot_metas texts s) ≤ max
  unfolding over_cap
  under_cap max s p f = ground arith

  above_cap :
      (max : ℕ) (s : SharedMap)
      → over_cap texts max s ≡ true
      → (0 < max) × (max < length (read_snapshot_metas texts s))
  unfolding over_cap
  above_cap max s t = (ground arith, ground arith)

  length-evict :
      (max : ℕ) (survivors : List SnapshotMeta) (s : SharedMap) (pruned : List String)
      → WellKeyed texts s.metas
      → Distinct (keys s.metas)
      → (0 < max) × (max < length (valid_metas texts s.metas))
      → let sorted = sort_metas texts (valid_metas texts s.metas) in
        let after = (evict (take (length sorted - max) sorted) survivors (s, pruned)).0 in
        length (read_snapshot_metas texts after) ≡ max
  unfolding evict
  length-evict max survivors s pruned w d (pos, above) =
      let sorted = sort_metas texts (valid_metas texts s.metas) in
      let victims = take (length sorted - max) sorted in
      let once = valid_metas-Distinct texts s.metas w d in
      let after = (evict victims survivors (s, pruned)).0 in
      let fewer =
        length-evict_all victims
          (record s { payloads = re_root (map (λ m. m.id) victims) survivors s.payloads }) pruned w
          once
          (take-Distinct (length sorted - max) sorted
            (sort-Distinct texts (valid_metas texts s.metas) once))
          (λ k h.
            mem-ids-take k (length sorted - max) sorted
              (mem-ids-sort texts k (valid_metas texts s.metas) ∙ h)) in
      let cut = length-take (length sorted - max) sorted (omega arith) in
      let all = length-sort texts (valid_metas texts s.metas) in
      let left : length (valid_metas texts after.metas) ≡ max = omega (arith, fewer, cut, all) in
      ap length (length-read after (ground (arith, left)))
      ∙ length-sort texts (valid_metas texts after.metas)
      ∙ left

  -- With a valid record among them, no more than the cap are listed.
  length-retain :
      (max : ℕ) (s : SharedMap) (pruned : List String)
      → WellKeyed texts s.metas
      → Distinct (keys s.metas)
      → ltb 0 max ≡ true
      → ltb 0 (length (valid_metas texts s.metas)) ≡ true
      → length (read_snapshot_metas texts (retain texts max (s, pruned)).0) ≤ max
  unfolding retain
  length-retain max s pruned w d positive some_valid = elim (Bool-cases (over_cap texts max s)) [
    | inr f ↦ rw f (under_cap max s positive f)
    | inl t ↦
        let (pos, above) = above_cap max s t in
        let sorted = length-read s some_valid in
        let more : max < length (valid_metas texts s.metas) =
          omega (arith, above, ap length sorted, length-sort texts (valid_metas texts s.metas)) in
        rw (t, sorted) (omega (arith, length-evict max _ s pruned w d (pos, more)))
  ]

read_beside :
    (texts : Texts) (t : SharedMap) (ir : Option PageIr) (peer : Option Json)
    → read_snapshot_metas texts (record t { page_ir = ir; last_peer = peer })
      ≡ read_snapshot_metas texts t
unfolding read_snapshot_metas
read_beside texts t ir peer = refl

some_inj : (a b : SnapshotMeta) → some a ≡ some b → a ≡ b
some_inj a b h = cc

occupied : (m : SnapshotMeta) (ms : List SnapshotMeta) → In m ms → ltb 0 (length ms) ≡ true
occupied m [] h = absurd h
occupied m (x ∷ xs) h = ground arith

-- The records that are there when a save enforces the cap.
module _ (host : Host) (options : Options) (s : Store) (c : Saving) where
  abbrev m : SnapshotMeta
  m = new_meta host options s.conflicts.last_local_ir c

  abbrev metas : Dict String (Option Json)
  metas = put c.new_id (some (encode_meta m)) s.shared.metas

  module _ (parsed : parse_snapshot_meta host.texts.date_ok (some (encode_meta m)) ≡ some m)
      (keyed : WellKeyed host.texts s.shared.metas) where
    written-WellKeyed : WellKeyed host.texts metas
    unfolding new_meta
    written-WellKeyed k raw n h p =
        elim (In-put k c.new_id raw (some (encode_meta m)) s.shared.metas h) [
          | inr old ↦ keyed k raw n old p
          | inl (e, f) ↦
              let same : m ≡ n =
                some_inj m n (sym parsed ∙ ap (parse_snapshot_meta host.texts.date_ok) f ∙ p) in
              sym (ap (λ x. x.id) same) ∙ e
        ]

    written_there : ltb 0 (length (valid_metas host.texts metas)) ≡ true
    written_there = occupied m (valid_metas host.texts metas) (
        valid_metas-In host.texts c.new_id (some (encode_meta m)) m metas
          (In-of_get c.new_id (some (encode_meta m)) metas (
            ground (
              arith,
              get-put c.new_id c.new_id (some (encode_meta m)) s.shared.metas,
              string_eq.same_key_iff c.new_id c.new_id,
            )))
          parsed)

  -- A save leaves no more snapshots listed than the cap, however many there were: where there is
  -- a cap, each id stands once and each valid record under its own id, and the id, the time and
  -- the diff of the new record are valid.
  pub length-save :
      ltb 0 options.max_snapshots ≡ true
      → Distinct (keys s.shared.metas)
      → WellKeyed host.texts s.shared.metas
      → (c.new_id == "") ≡ false
      → host.texts.date_ok c.saved_at ≡ true
      → optional is_valid_ir_diff m.delta ≡ true
      → length (list host.texts (save host options s c).0) ≤ options.max_snapshots
  unfolding list save stored new_meta
  length-save positive distinct keyed named dated differs =
      let parsed = parse_snapshot_meta-encode_meta host.texts.date_ok m named dated differs in
      let payload =
        choose_payload (local_diff host options s c.ir) (prev_snapshot_id host.texts s.shared)
          s.saves_since_keyframe c.ir in
      let kept = retain host.texts options.max_snapshots (stored s m payload, s.pruned_ids) in
      omega (
        arith,
        ap length (
            read_beside host.texts kept.0
              (if write_blob host options s c.now then some c.ir else kept.0.page_ir)
              (some options.local_peer)),
        length-retain host.texts options.max_snapshots (stored s m payload) s.pruned_ids
            (written-WellKeyed parsed keyed)
            (put-Distinct c.new_id (some (encode_meta m)) s.shared.metas distinct) positive
            (written_there parsed keyed),
      )
