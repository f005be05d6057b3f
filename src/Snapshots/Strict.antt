-- ===== src/Snapshots/Strict.antt =====
-- The two readings of a metadata record, and what is written is read again.
use anvilkit_plugin_collab_y.Base.{
  ◌≡◌, refl, ◌↔◌, Bool, true, false, Option, none, some, String, ◌==◌, string_eq, arith,
  Option-cases,
}
use anvilkit_plugin_collab_y.Ir.{Json, null, bool, num, str, arr, obj}
use anvilkit_plugin_collab_y.Ir.Access.{
  lookup, member, is_object, string_of, is_non_empty_string, optional,
}
use anvilkit_plugin_collab_y.Snapshots.Meta.{
  SnapshotMeta, valid, is_valid_ir_diff, is_valid_saved_at, is_snapshot_meta, parse_snapshot_meta,
  decode_snapshot_meta_strict, encode_meta,
}

id_of_object : (v : Json) → is_object v ≡ false → is_non_empty_string (member "id" v) ≡ false
unfolding is_object is_non_empty_string string_of
id_of_object null h = refl
id_of_object (bool b) h = refl
id_of_object (num n) h = refl
id_of_object (str s) h = refl
id_of_object (arr vs) h = refl
id_of_object (obj fs) h = absurd (cc (h))

module _ (date_ok : String → Bool) where
  -- The strict reading of a load accepts exactly the records that the list shows, and reads
  -- them as it does.
  pub decode_snapshot_meta_strict_iff :
      (raw : Option Json) (m : SnapshotMeta)
      → (decode_snapshot_meta_strict date_ok raw ≡ valid m)
        ↔ (parse_snapshot_meta date_ok raw ≡ some m)
  unfolding decode_snapshot_meta_strict parse_snapshot_meta is_snapshot_meta
  decode_snapshot_meta_strict_iff none m = (λ h. absurd (cc (h)), λ h. absurd (cc (h)))
  decode_snapshot_meta_strict_iff (some v) m =
      (λ h. ground (arith, id_of_object v), λ h. ground (arith, id_of_object v))

  -- A record with a non-empty id, a valid time and, if any, a valid diff is read as it was
  -- written.
  pub parse_snapshot_meta-encode_meta :
      (m : SnapshotMeta)
      → (m.id == "") ≡ false
      → date_ok m.saved_at ≡ true
      → optional is_valid_ir_diff m.delta ≡ true
      → parse_snapshot_meta date_ok (some (encode_meta m)) ≡ some m
  unfolding parse_snapshot_meta is_snapshot_meta encode_meta lookup string_of is_non_empty_string
      is_valid_saved_at
  parse_snapshot_meta-encode_meta m h d v =
      ground (arith, Option-cases m.label, Option-cases m.delta)
