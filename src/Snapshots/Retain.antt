-- ===== src/Snapshots/Retain.antt =====
-- src/utils/snapshots.ts: the bound on the number of snapshots, which a save enforces, and the
-- memory of the ids that it dropped.
use anvilkit_plugin_collab_y.Base.{
  ℕ, ◌-◌, ◌&&◌, Bool, some, List, [], ◌∷◌, map, String, string_eq, if◌then◌else◌, length, take,
  drop, ltb, drop,
}
use anvilkit_plugin_collab_y.Base.Dict.{Dict, get, put, del}
use anvilkit_plugin_collab_y.Base.IdSet.{mem, add}
use anvilkit_plugin_collab_y.PayloadChain.{StoredPayload, full, delta, ok, err, reconstruct_payload}
use anvilkit_plugin_collab_y.Snapshots.Meta.{SnapshotMeta}
use anvilkit_plugin_collab_y.Snapshots.Index.{SharedMap, Texts, read_snapshot_metas}

abbrev pub pruned_id_memory : ℕ
pruned_id_memory = 1024

-- Beyond the bound the oldest id is forgotten.
unfoldable pub remember_pruned : String → List String → List String
remember_pruned id ids =
    let ids' = add id ids in if ltb pruned_id_memory (length ids') then drop 1 ids' else ids'

-- A survivor whose record is a delta on a victim gets the full document in its place. That was
-- rebuilt from a delta and has the version 1, so its record is one that is decoded again.
unfoldable pub promote :
    List String → String → Dict String StoredPayload → Dict String StoredPayload
promote victims id payloads = elim (get id payloads) [
  | some (delta base changed removed assets metadata) ↦
      if mem base victims
      then elim (reconstruct_payload payloads id) [
        | ok ir ↦ put id (full ir) payloads
        | err e ↦ payloads
      ]
      else payloads
  | _ ↦ payloads
]

-- The loop over the survivors ends after its first round.
unfoldable pub re_root :
    List String → List SnapshotMeta → Dict String StoredPayload → Dict String StoredPayload
re_root victims [] payloads = payloads
re_root victims (m ∷ ms) payloads = promote victims m.id payloads

-- The map, and the ids dropped so far.
abbrev pub Retained : Type 0
Retained = SharedMap × List String

unfoldable pub delete_snapshot : String → SharedMap → SharedMap
delete_snapshot id s = record s { payloads = del id s.payloads; metas = del id s.metas }

unfoldable pub evict_all : List SnapshotMeta → Retained → Retained
evict_all [] r = r
evict_all (m ∷ ms) (s, pruned) = evict_all ms (delete_snapshot m.id s, remember_pruned m.id pruned)

-- The survivors are re-rooted while the victims are still there.
unfoldable pub evict : List SnapshotMeta → List SnapshotMeta → Retained → Retained
evict victims survivors (s, pruned) =
    let s' = record s { payloads = re_root (map (λ m. m.id) victims) survivors s.payloads } in
    evict_all victims (s', pruned)

-- `max` is the ceiling, 0 where it is disabled.
unfoldable pub over_cap : Texts → ℕ → SharedMap → Bool
over_cap texts max s = ltb 0 max && ltb max (length (read_snapshot_metas texts s))

unfoldable pub retain : Texts → ℕ → Retained → Retained
retain texts max (s, pruned) =
    let metas = read_snapshot_metas texts s in
    let overflow = length metas - max in
    if over_cap texts max s
    then evict (take overflow metas) (drop overflow metas) (s, pruned)
    else (s, pruned)
