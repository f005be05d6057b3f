-- ===== src/Snapshots/Orphans.antt =====
-- What dropping records does to the deltas on them.
use anvilkit_plugin_collab_y.Base.{
  ℕ, ◌≡◌, refl, ap, ◌∙◌, ◌≢◌, ◌⊎◌, inl, inr, true, false, none, some, List, [], ◌∷◌, map, String,
  string_eq, arith, if◌then◌else◌, Bool-cases, Option-cases,
}
use anvilkit_plugin_collab_y.Base.Dict.{Dict, get, put, get-put, get-del}
use anvilkit_plugin_collab_y.Base.IdSet.{mem}
use anvilkit_plugin_collab_y.Ir.{Json, PageIr}
use anvilkit_plugin_collab_y.PayloadChain.{
  StoredNode, StoredPayload, full, delta, Result, ok, err, ChainError, reconstruct_payload,
}
use anvilkit_plugin_collab_y.PayloadChain.Chain.{reconstruct_payload_iff, Chain, key, link}
use anvilkit_plugin_collab_y.Snapshots.Meta.{SnapshotMeta}
use anvilkit_plugin_collab_y.Snapshots.Index.{SharedMap}
use anvilkit_plugin_collab_y.Snapshots.Retain.{
  promote, re_root, remember_pruned, delete_snapshot, evict_all, evict,
}
use anvilkit_plugin_collab_y.Snapshots.Save.{Options, Store}
use anvilkit_plugin_collab_y.Snapshots.Load.{loaded, load_payload, delete}

abbrev pub ids : List SnapshotMeta → List String
ids = map (λ m. m.id)

pub get-evict_all :
    (k : String) (ms : List SnapshotMeta) (s : SharedMap) (pruned : List String)
    → get k (evict_all ms (s, pruned)).0.payloads
      ≡ (if mem k (ids ms) then none else get k s.payloads)
unfolding evict_all mem delete_snapshot
get-evict_all k [] s pruned = refl
get-evict_all k (m ∷ ms) s pruned = ground (
  arith,
  get-evict_all k ms (delete_snapshot m.id s) (remember_pruned m.id pruned),
  get-del k m.id s.payloads,
  string_eq.same_key_iff m.id k,
)

result_cases :
    (r : Result PageIr) → ((ir : PageIr) × (r ≡ ok ir)) ⊎ ((e : ChainError) × (r ≡ err e))
result_cases (ok ir) = inl (ir, refl)
result_cases (err e) = inr (e, refl)

-- A record is promoted to the keyframe of its own document, or all stays as it is.
pub promote-cases :
    (victims : List String) (id : String) (payloads : Dict String StoredPayload)
    → (promote victims id payloads ≡ payloads)
      ⊎ ((ir : PageIr) × (reconstruct_payload payloads id ≡ ok ir)
          × (promote victims id payloads ≡ put id (full ir) payloads))
unfolding promote
promote-cases victims id payloads = elim (Option-cases (get id payloads)) [
  | inl g ↦ inl (rw (g, promote) refl)
  | inr (full i, g) ↦ inl (rw (g, promote) refl)
  | inr (delta b c r a d, g) ↦ elim (Bool-cases (mem b victims)) [
    | inl t ↦ elim (result_cases (reconstruct_payload payloads id)) [
      | inl (ir, q) ↦ inr (ir, q, rw (g, promote, t, q) refl)
      | inr (e, q) ↦ inl (rw (g, promote, t, q) refl)
    ]
    | inr f ↦ inl (rw (g, promote, f) refl)
  ]
]

pub get-promote :
    (victims : List String) (id k : String) (payloads : Dict String StoredPayload)
    → id ≢ k
    → get k (promote victims id payloads) ≡ get k payloads
get-promote victims id k payloads ne = elim (promote-cases victims id payloads) [
  | inl q ↦ ap (get k) q
  | inr (ir, r, q) ↦
      ap (get k) q ∙ ground (arith, get-put k id (full ir) payloads, string_eq.same_key_iff id k)
]

chain_of_orphan :
    (payloads : Dict String StoredPayload) (id base : String) (changed : List StoredNode)
    (removed : List String) (assets metadata : Json) (ir : PageIr)
    → get id payloads ≡ some (delta base changed removed assets metadata)
    → get base payloads ≡ none
    → reconstruct_payload payloads id ≢ ok ir
chain_of_orphan payloads id base changed removed assets metadata ir h gone r =
    let (n, c) = (reconstruct_payload_iff payloads id ir).0 r in no_chain c h gone
  where
    no_base :
        {b : String} {m : ℕ} {i : PageIr}
        → Chain (λ k. get k payloads) b m i
        → get b payloads ≢ none
    no_base (key e) g = cc
    no_base (link e c a) g = cc

    no_chain :
        {k : String} {m : ℕ} {i : PageIr}
        → Chain (λ k. get k payloads) k m i
        → get k payloads ≡ some (delta base changed removed assets metadata)
        → get base payloads ≡ none
        → ⊥
    no_chain (key e) p g = cc
    no_chain (link {base = b} e c a) p g = no_base c (cc)

load_payload-reconstructs :
    (s : SharedMap) (id : String) (ir : PageIr)
    → load_payload s id ≡ loaded ir
    → reconstruct_payload s.payloads id ≡ ok ir
unfolding load_payload
load_payload-reconstructs s id ir h = elim (Option-cases (get id s.payloads)) [
  | inl g ↦ absurd (cc (rw (g, load_payload) at h))
  | inr (p, g) ↦ elim (result_cases (reconstruct_payload s.payloads id)) [
    | inl (i, q) ↦ q ∙ ap ok (loaded_inj (rw (g, load_payload, q) at h))
    | inr (e, q) ↦ absurd (cc (rw (g, load_payload, q) at h))
  ]
]
  where
    loaded_inj : {a b : PageIr} → loaded a ≡ loaded b → a ≡ b
    loaded_inj p = cc

-- Re-rooting reaches the first survivor only: another survivor whose record is a delta on a
-- victim does not load after the eviction, whatever it held.
pub load_payload-evict :
    (victims survivors : List SnapshotMeta) (first : SnapshotMeta) (s : SharedMap)
    (pruned : List String) (id base : String) (changed : List StoredNode) (removed : List String)
    (assets metadata : Json) (ir : PageIr)
    → get id s.payloads ≡ some (delta base changed removed assets metadata)
    → mem base (ids victims) ≡ true
    → mem id (ids victims) ≡ false
    → first.id ≢ id
    → load_payload (evict victims (first ∷ survivors) (s, pruned)).0 id ≢ loaded ir
unfolding evict re_root
load_payload-evict victims survivors first s pruned id base changed removed assets metadata ir h vb
      vi ne r =
    let s' = record s { payloads = promote (ids victims) first.id s.payloads } in
    chain_of_orphan _ id base changed removed assets metadata ir
      (get-evict_all id victims s' pruned
        ∙ rw vi (get-promote (ids victims) first.id id s.payloads ne ∙ h))
      (get-evict_all base victims s' pruned ∙ rw vb refl) (load_payload-reconstructs _ id ir r)

-- Deleting a snapshot makes every other one whose record is a delta on it unreadable.
pub load_payload-delete :
    (options : Options) (s : Store) (id base : String) (changed : List StoredNode)
    (removed : List String) (assets metadata : Json) (ir : PageIr)
    → get id s.shared.payloads ≡ some (delta base changed removed assets metadata)
    → base ≢ id
    → load_payload (delete options s base).shared id ≢ loaded ir
unfolding delete delete_snapshot
load_payload-delete options s id base changed removed assets metadata ir h ne r =
    chain_of_orphan _ id base changed removed assets metadata ir
      (ground (arith, get-del id base s.shared.payloads, string_eq.same_key_iff base id))
      (ground (arith, get-del base base s.shared.payloads, string_eq.same_key_iff base base))
      (load_payload-reconstructs _ id ir r)
