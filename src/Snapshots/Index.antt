-- ===== src/Snapshots/Index.antt =====
-- src/utils/snapshots.ts: the list of snapshots that a shared map holds, in the order of their
-- times and then their ids.
use anvilkit_plugin_collab_y.Base.{
  Bool, Option, none, some, List, [], ◌∷◌, String, if◌then◌else◌, Ordering,
}
use anvilkit_plugin_collab_y.Base.Dict.{Dict}
use anvilkit_plugin_collab_y.Ir.{Json, arr, Items, nil, cons, PageIr}
use anvilkit_plugin_collab_y.PayloadChain.{StoredPayload}
use anvilkit_plugin_collab_y.Snapshots.Meta.{
  SnapshotMeta, is_snapshot_meta, as_meta, parse_snapshot_meta,
}

-- The shared map, by the prefix of its keys: the texts of `snapshotMeta:` as parsed, the
-- decoded records of `snapshotPayload:` (a text that does not decode counts as absent, on a read
-- and on a write: each reader fails on both alike, `load` with one error whose cause differs), the
-- legacy index as parsed, the document of the blob where it decodes, and the last peer as parsed.
pub record SharedMap : Type 0 where
  pub metas : Dict String (Option Json)
  pub legacy_index : Option Json
  pub payloads : Dict String StoredPayload
  pub page_ir : Option PageIr
  pub last_peer : Option Json

-- What the platform gives: `Date.parse` as a test and `localeCompare`.
pub record Texts : Type 0 where
  pub date_ok : String → Bool
  pub locale_compare : String → String → Ordering

module _ (texts : Texts) where
  unfoldable pub compare_snapshot_meta : SnapshotMeta → SnapshotMeta → Ordering
  compare_snapshot_meta l r = elim (texts.locale_compare l.saved_at r.saved_at) [
    | Ordering.eq ↦ texts.locale_compare l.id r.id
    | o ↦ o
  ]

  unfoldable pub insert : SnapshotMeta → List SnapshotMeta → List SnapshotMeta
  insert m [] = m ∷ []
  insert m (x ∷ xs) = elim (compare_snapshot_meta m x) [
    | Ordering.gt ↦ x ∷ insert m xs
    | _ ↦ m ∷ x ∷ xs
  ]

  -- The stable `Array.prototype.sort` under the comparison.
  unfoldable pub sort_metas : List SnapshotMeta → List SnapshotMeta
  sort_metas [] = []
  sort_metas (m ∷ ms) = insert m (sort_metas ms)

  -- `map.forEach`, with the records that are valid.
  unfoldable pub valid_metas : Dict String (Option Json) → List SnapshotMeta
  valid_metas [] = []
  valid_metas ((k, raw) ∷ es) = elim (parse_snapshot_meta texts.date_ok raw) [
    | some m ↦ m ∷ valid_metas es
    | none ↦ valid_metas es
  ]

  unfoldable pub valid_items : Items → List SnapshotMeta
  valid_items nil = []
  valid_items (cons v vs) =
      if is_snapshot_meta texts.date_ok v
      then as_meta texts.date_ok v ∷ valid_items vs
      else valid_items vs

  unfoldable pub read_legacy_snapshot_index : Option Json → List SnapshotMeta
  read_legacy_snapshot_index (some (arr vs)) = sort_metas (valid_items vs)
  read_legacy_snapshot_index _ = []

  unfoldable pub read_snapshot_metas : SharedMap → List SnapshotMeta
  read_snapshot_metas s = elim (valid_metas s.metas) [
    | [] ↦ read_legacy_snapshot_index s.legacy_index
    | m ∷ ms ↦ sort_metas (m ∷ ms)
  ]
