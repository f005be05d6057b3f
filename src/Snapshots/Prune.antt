-- ===== src/Snapshots/Prune.antt =====
-- What an eviction keeps.
use anvilkit_plugin_collab_y.Base.{
  ℕ, ◌≡◌, refl, sym, ap, ◌∙◌, ◌≢◌, subst, inl, inr, false, Option, some, List, ◌∷◌, String,
  string_eq, beq-cases, arith, Bool-cases,
}
use anvilkit_plugin_collab_y.Base.Dict.{Dict, get, put, get-put}
use anvilkit_plugin_collab_y.Base.IdSet.{mem}
use anvilkit_plugin_collab_y.Ir.{Json, PageIr}
use anvilkit_plugin_collab_y.PayloadChain.{
  StoredNode, StoredPayload, full, delta, ok, reconstruct_payload,
}
use anvilkit_plugin_collab_y.PayloadChain.Chain.{
  reconstruct_payload_iff, reconstruct_payload-rekey, Chain, key, link,
}
use anvilkit_plugin_collab_y.Snapshots.Meta.{SnapshotMeta}
use anvilkit_plugin_collab_y.Snapshots.Index.{SharedMap}
use anvilkit_plugin_collab_y.Snapshots.Retain.{promote, re_root, evict_all, evict}
use anvilkit_plugin_collab_y.Snapshots.Orphans.{ids, get-evict_all, get-promote, promote-cases}

abbrev Read : Type 0
Read = String → Option StoredPayload

-- A chain that stays among kept ids is there when all others are dropped.
module _ (read read' : Read) (Stays : String → Type 0)
    (same : (k : String) → Stays k → read' k ≡ read k)
    (closed : (k base : String) (changed : List StoredNode) (removed : List String)
        (assets metadata : Json) (m : ℕ) (i : PageIr)
      → Stays k
      → Chain read k m i
      → read k ≡ some (delta base changed removed assets metadata)
      → Stays base) where
  Chain-kept :
      {id : String} {n : ℕ} {ir : PageIr} → Stays id → Chain read id n ir → Chain read' id n ir
  Chain-kept h (key e) = key (same _ h ∙ e)
  Chain-kept {id} {n} {ir} h (link {base = b} {n = m} e c a) =
      link (same _ h ∙ e) (Chain-kept (closed id b _ _ _ _ n ir h (link e c a) e) c) a

get_promoted :
    (id : String) (ir : PageIr) (payloads : Dict String StoredPayload)
    → get id (put id (full ir) payloads) ≡ some (full ir)
get_promoted id ir payloads =
    ground (arith, get-put id id (full ir) payloads, string_eq.same_key_iff id id)

-- A record that loads is no delta on a victim once it went through the promotion.
promoted_base :
    (victims : List String) (id : String) (payloads : Dict String StoredPayload) (base : String)
    (changed : List StoredNode) (removed : List String) (assets metadata : Json) (m : ℕ)
    (i : PageIr)
    → Chain (λ k. get k (promote victims id payloads)) id m i
    → get id (promote victims id payloads) ≡ some (delta base changed removed assets metadata)
    → mem base victims ≡ false
unfolding promote
promoted_base victims id payloads base ch rm as' md m i c g =
    elim (promote-cases victims id payloads) [
      | inr (ir, r, q) ↦ absurd (cc (sym g ∙ ap (get id) q ∙ get_promoted id ir payloads))
      | inl q ↦ elim (Bool-cases (mem base victims)) [
        | inr f ↦ f
        | inl t ↦
            let loads =
              (reconstruct_payload_iff payloads id i).1
                (m, subst (λ p. Chain (λ k. get k p) id m i) q c) in
            let before : get id payloads ≡ some (delta base ch rm as' md) =
              ap (get id) (sym q) ∙ g in
            let became : promote victims id payloads ≡ put id (full i) payloads =
              rw (before, promote, t, loads) refl in
            absurd (cc (sym g ∙ ap (get id) became ∙ get_promoted id i payloads))
      ]
    ]

-- Eviction keeps the documents of the survivors: when no survivor but the first has a delta on a
-- victim, each id that is no victim has the document that it had.
pub reconstruct_payload-evict :
    (victims survivors : List SnapshotMeta) (first : SnapshotMeta) (s : SharedMap)
    (pruned : List String) (id : String) (out : PageIr)
    → ((k base : String) (changed : List StoredNode) (removed : List String)
          (assets metadata : Json)
        → mem k (ids victims) ≡ false
        → first.id ≢ k
        → get k s.payloads ≡ some (delta base changed removed assets metadata)
        → mem base (ids victims) ≡ false)
    → mem id (ids victims) ≡ false
    → reconstruct_payload s.payloads id ≡ ok out
    → reconstruct_payload (evict victims (first ∷ survivors) (s, pruned)).0.payloads id ≡ ok out
unfolding evict re_root
reconstruct_payload-evict victims survivors first s pruned id out linear h r =
    let s' = record s { payloads = promote (ids victims) first.id s.payloads } in
    let (n, c) = (reconstruct_payload_iff s'.payloads id out).0 kept in
    (reconstruct_payload_iff (evict_all victims (s', pruned)).0.payloads id out).1 (
      n,
      Chain-kept (λ k. get k s'.payloads) (λ k. get k (evict_all victims (s', pruned)).0.payloads)
          (λ k. mem k (ids victims) ≡ false) (λ k v. get-evict_all k victims s' pruned ∙ rw v refl)
          closed h c,
    )
  where
    kept : reconstruct_payload (promote (ids victims) first.id s.payloads) id ≡ ok out
    kept = elim (promote-cases (ids victims) first.id s.payloads) [
      | inl q ↦ ap (λ p. reconstruct_payload p id) q ∙ r
      | inr (ir, f, q) ↦
          ap (λ p. reconstruct_payload p id) q
          ∙ reconstruct_payload-rekey s.payloads first.id id ir out f r
    ]

    closed :
        (k base : String) (changed : List StoredNode) (removed : List String)
        (assets metadata : Json) (m : ℕ) (i : PageIr)
        → mem k (ids victims) ≡ false
        → Chain (λ j. get j (promote (ids victims) first.id s.payloads)) k m i
        → get k (promote (ids victims) first.id s.payloads)
          ≡ some (delta base changed removed assets metadata)
        → mem base (ids victims) ≡ false
    closed k base ch rm as' md m i v c g = elim (beq-cases first.id k) [
      | inl (t, e) ↦
          promoted_base (ids victims) first.id s.payloads base ch rm as' md m i
            (subst (λ j. Chain (λ l. get l (promote (ids victims) first.id s.payloads)) j m i)
              (sym e) c)
            (ap (λ j. get j (promote (ids victims) first.id s.payloads)) e ∙ g)
      | inr (f, ne) ↦
          linear k base ch rm as' md v ne
            (sym (get-promote (ids victims) first.id k s.payloads ne) ∙ g)
    ]
