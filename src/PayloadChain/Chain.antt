-- ===== src/PayloadChain/Chain.antt =====
-- What a store of payloads promises, as a relation, and that `reconstructPayload` decides it.
use anvilkit_plugin_collab_y.Base.{
  ℕ, zero, suc, ◌<◌, ◌≡◌, refl, sym, ap, ◌∙◌, subst, ◌⊎◌, inl, inr, ◌↔◌, true, false, Option, none,
  some, List, [], ◌∷◌, String, string_eq, Keyed, beq-cases, length, arith, Bool-cases, Option-cases,
  suc,
}
use anvilkit_plugin_collab_y.Base.Dict.{Dict, keys, get, put, get-put}
use anvilkit_plugin_collab_y.Base.IdSet.{mem}
use anvilkit_plugin_collab_y.Ir.{Json, Own, PageIr, node_id}
use anvilkit_plugin_collab_y.NativeTree.Diff.{diff_ir_nodes_for_local_save}
use anvilkit_plugin_collab_y.NativeTree.Diff.Laws.{UniqueIds}
use anvilkit_plugin_collab_y.PayloadChain.{
  StoredNode, StoredPayload, full, delta, Result, ok, err, out_of_fuel, ◌>>=◌, apply_stored_delta,
  build_delta_payload, replay, reconstruct, reconstruct_payload,
}
use anvilkit_plugin_collab_y.PayloadChain.Total.{reconstruct_payload-total}
use anvilkit_plugin_collab_y.PayloadChain.Rebuild.{IsCanonical}
use anvilkit_plugin_collab_y.PayloadChain.Replay.{Detects, apply_stored_delta-save}

-- The document of an id: a keyframe's own, or a delta replayed over the document of its base.
-- The number counts the deltas.
pub data Chain (read : String → Option StoredPayload) : String → ℕ → PageIr → Type 0 where
  key : {id : String} {ir : PageIr} → read id ≡ some (full ir) → Chain read id zero ir
  link :
      {id base : String} {changed : List StoredNode} {removed : List String}
      {assets metadata : Json} {n : ℕ} {ir out : PageIr}
      → read id ≡ some (delta base changed removed assets metadata)
      → Chain read base n ir
      → apply_stored_delta ir changed removed assets metadata ≡ ok out
      → Chain read id (suc n) out

some_inj : {A : Type 0} (a b : A) → some a ≡ some b → a ≡ b
some_inj a b h = cc

ok_inj : {A : Type 0} (a b : A) → ok a ≡ ok b → a ≡ b
ok_inj a b h = cc

-- Fuel that suffices finds what the relation says.
reconstruct-Chain :
    (read : String → Option StoredPayload) (fuel : ℕ) (seen : List String) (id : String)
    (ir : PageIr)
    → reconstruct read fuel seen id ≡ ok ir
    → (n : ℕ) × Chain read id n ir
unfolding reconstruct replay
reconstruct-Chain read zero seen id ir h = absurd (cc)
reconstruct-Chain read (suc fuel) seen id ir h = elim (Bool-cases (mem id seen)) [
  | inl old ↦ absurd (cc (rw old at h))
  | inr new ↦ elim (Option-cases (read id)) [
    | inl gone ↦ absurd (cc (rw (new, gone, reconstruct) at h))
    | inr (p, found) ↦
        from_replay p found (λ b i q. reconstruct-Chain read fuel (id ∷ seen) b i q)
          (rw (new, found) at h)
  ]
]
  where
    from_base :
        (base : String) (changed : List StoredNode) (removed : List String) (assets metadata : Json)
        (r : Result PageIr)
        → read id ≡ some (delta base changed removed assets metadata)
        → ((i : PageIr) → r ≡ ok i → (n : ℕ) × Chain read base n i)
        → (r >>= λ i. apply_stored_delta i changed removed assets metadata) ≡ ok ir
        → (n : ℕ) × Chain read id n ir
    from_base base changed removed assets metadata (err x) f below h = absurd (cc)
    from_base base changed removed assets metadata (ok i) f below h =
        let (n, c) = below i refl in (suc n, link f c h)

    from_replay :
        (p : StoredPayload)
        → read id ≡ some p
        → ((b : String) (i : PageIr)
            → reconstruct read fuel (id ∷ seen) b ≡ ok i
            → (n : ℕ) × Chain read b n i)
        → replay (reconstruct read fuel (id ∷ seen)) p ≡ ok ir
        → (n : ℕ) × Chain read id n ir
    from_replay (full i) f below h = (0, key (f ∙ ap (λ x. some (full x)) (ok_inj i ir h)))
    from_replay (delta base changed removed assets metadata) f below h =
        from_base base changed removed assets metadata (reconstruct read fuel (id ∷ seen) base) f
          (below base) h

same_replay :
    (i j ir ir' : PageIr) (ch ch' : List StoredNode) (rm rm' : List String) (as' bs' md nd : Json)
    → i ≡ j
    → ch ≡ ch'
    → rm ≡ rm'
    → as' ≡ bs'
    → md ≡ nd
    → apply_stored_delta i ch rm as' md ≡ ok ir
    → apply_stored_delta j ch' rm' bs' nd ≡ ok ir'
    → ir ≡ ir'
same_replay i j ir ir' ch ch' rm rm' as' bs' md nd p q r t u a b = cc

-- An id has one document, at one distance from its keyframe.
Chain-unique :
    {read : String → Option StoredPayload} {id : String} {n m : ℕ} {ir ir' : PageIr}
    → Chain read id n ir
    → Chain read id m ir'
    → (n ≡ m) × (ir ≡ ir')
Chain-unique (key e) (key f) = cc' (some_inj _ _ (sym e ∙ f))
  where
    cc' : {a b : PageIr} → full a ≡ full b → ◌≡◌ {A = ℕ} 0 0 × (a ≡ b)
    cc' h = (refl, cc)
Chain-unique (key e) (link f c a) = absurd (cc)
Chain-unique (link e c a) (key f) = absurd (cc)
Chain-unique {read}
      (link {base = b} {changed = ch} {removed = rm} {assets = as'} {metadata = md} e c a)
      (link {base = b'} {changed = ch'} {removed = rm'} {assets = bs'} {metadata = nd} {n = l}
        {ir = j} f c' a') =
    let q : delta b ch rm as' md ≡ delta b' ch' rm' bs' nd = some_inj _ _ (sym e ∙ f) in
    let bases : b ≡ b' = cc in
    let r = Chain-unique c (subst (λ x. Chain read x l j) (sym bases) c') in
    let docs = r.1 in
    (ap suc r.0, same_replay _ _ _ _ ch ch' rm rm' as' bs' md nd docs (cc) (cc) (cc) (cc) a a')

module _ (read : String → Option StoredPayload) where
  -- Every id on the path lies further from its keyframe.
  abbrev Above : ℕ → List String → Type 0
  Above n seen =
      (k : String) → mem k seen ≡ true → (m : ℕ) × (i : PageIr) × Chain read k m i × (n < m)

  not_seen :
      (id : String) (n : ℕ) (ir : PageIr) (seen : List String)
      → Chain read id n ir
      → Above n seen
      → mem id seen ≡ false
  not_seen id n ir seen c above = elim (Bool-cases (mem id seen)) [
    | inl t ↦ let (m, i, d, lt) = above id t in absurd (omega (arith, (Chain-unique c d).0))
    | inr f ↦ f
  ]

  further :
      (id : String) (n : ℕ) (ir : PageIr) (m : ℕ) (seen : List String)
      → Chain read id n ir
      → m < n
      → Above n seen
      → Above m (id ∷ seen)
  unfolding mem
  further id n ir m seen c lt above k h = elim (beq-cases id k) [
    | inl (t, e) ↦ (n, ir, subst (λ x. Chain read x n ir) e c, lt)
    | inr (f, e) ↦ let (l, i, d, below) = above k (rw f at h) in (l, i, d, omega arith)
  ]

  Chain-reconstruct :
      (fuel : ℕ) (seen : List String) (id : String) (n : ℕ) (ir : PageIr)
      → Above n seen
      → Chain read id n ir
      → (reconstruct read fuel seen id ≡ ok ir) ⊎ (reconstruct read fuel seen id ≡ err out_of_fuel)
  unfolding reconstruct replay
  Chain-reconstruct zero seen id n ir above c = inr refl
  Chain-reconstruct (suc fuel) seen id n ir above (key e) =
      inl (rw (not_seen id 0 ir seen (key e) above, e, reconstruct) refl)
  Chain-reconstruct (suc fuel) seen id n ir above
        (link {base = b} {changed = ch} {removed = rm} {assets = as'} {metadata = md} {n = m}
          {ir = i} e c a) =
      rw (not_seen id (suc m) ir seen (link e c a) above, e, reconstruct)
        (elim (Chain-reconstruct fuel (id ∷ seen) b m i
          (further id (suc m) ir m seen (link e c a) (omega arith) above) c) [
            | inl q ↦ inl (rw q a)
            | inr q ↦ inr (rw q refl)
          ])

-- `reconstructPayload` returns a document exactly when the chain of the id leads to it.
pub reconstruct_payload_iff :
    (store : Dict String StoredPayload) (id : String) (ir : PageIr)
    → (reconstruct_payload store id ≡ ok ir) ↔ ((n : ℕ) × Chain (λ k. get k store) id n ir)
unfolding reconstruct_payload mem
reconstruct_payload_iff store id ir = (
  λ h. reconstruct-Chain (λ k. get k store) (suc (length (keys store))) [] id ir h,
  λ (n, c).
      elim (Chain-reconstruct (λ k. get k store) (suc (length (keys store))) [] id n ir
        (λ k h. absurd (cc h)) c) [
          | inl e ↦ e
          | inr e ↦ absurd (reconstruct_payload-total store id e)
        ],
)

-- A chain stays as it is in a store that keeps the records it reads.
Chain-extends :
    {read read' : String → Option StoredPayload} {id : String} {n : ℕ} {ir : PageIr}
    → Chain read id n ir
    → ((k : String) (p : StoredPayload) → read k ≡ some p → read' k ≡ some p)
    → Chain read' id n ir
Chain-extends (key e) keeps = key (keeps _ _ e)
Chain-extends (link e c a) keeps = link (keeps _ _ e) (Chain-extends c keeps) a

-- A new record leaves the documents of all others as they were.
pub reconstruct_payload-put_new :
    (store : Dict String StoredPayload) (id k : String) (p : StoredPayload) (ir : PageIr)
    → get id store ≡ none
    → reconstruct_payload store k ≡ ok ir
    → reconstruct_payload (put id p store) k ≡ ok ir
reconstruct_payload-put_new store id k p ir fresh h =
    let (n, c) = (reconstruct_payload_iff store k ir).0 h in
    (reconstruct_payload_iff (put id p store) k ir).1 (
      n,
      Chain-extends c (λ j q e. ground (arith, get-put j id p store, string_eq.same_key_iff id j)),
    )

module _ (store : Dict String StoredPayload) (id : String) (ir : PageIr) (n : ℕ)
    (c : Chain (λ k. get k store) id n ir) where
  abbrev after : String → Option StoredPayload
  after k = get k (put id (full ir) store)

  rekeyed_here :
      (k : String) (m : ℕ) (out : PageIr)
      → Chain (λ k. get k store) k m out
      → id ≡ k
      → (l : ℕ) × Chain after k l out
  rekeyed_here k m out d e =
      let same = (Chain-unique (subst (λ x. Chain (λ k. get k store) x n ir) e c) d).1 in
      (0, key (ground (arith, get-put k id (full ir) store, string_eq.same_key_iff id k, same)))

  Chain-rekeyed :
      {k : String} {m : ℕ} {out : PageIr}
      → Chain (λ k. get k store) k m out
      → (l : ℕ) × Chain after k l out
  Chain-rekeyed {k} {out = out} (key e) = elim (beq-cases id k) [
    | inl (t, q) ↦ rekeyed_here k 0 out (key e) q
    | inr (f, q) ↦ (0, key (ground (arith, get-put k id (full ir) store)))
  ]
  Chain-rekeyed {k} {m = m} {out = out} (link e d a) =
      let (l, d') = Chain-rekeyed d in
      elim (beq-cases id k) [
        | inl (t, q) ↦ rekeyed_here k m out (link e d a) q
        | inr (f, q) ↦ (suc l, link (ground (arith, get-put k id (full ir) store)) d' a)
      ]

-- Re-rooting: a record overwritten by the keyframe of its own document changes the document of
-- no id, so that the records below it can be deleted.
pub reconstruct_payload-rekey :
    (store : Dict String StoredPayload) (id k : String) (ir out : PageIr)
    → reconstruct_payload store id ≡ ok ir
    → reconstruct_payload store k ≡ ok out
    → reconstruct_payload (put id (full ir) store) k ≡ ok out
reconstruct_payload-rekey store id k ir out h g =
    let (n, c) = (reconstruct_payload_iff store id ir).0 h in
    let (m, d) = (reconstruct_payload_iff store k out).0 g in
    (reconstruct_payload_iff (put id (full ir) store) k out).1 (Chain-rekeyed store id ir n c d)

module _ {H : Type 0} ⦃eh : Keyed H⦄ (hash : Own → H) (hashes : Option (Dict String H)) where
  -- Save and load: a delta stored against a snapshot of the previous document loads as the saved
  -- document. The base loads as the previous document, the new id is not taken, the save keeps
  -- the root id, ids stand once in each document, no node of either has an empty `children`
  -- array, and the classification misses no change of content between them.
  pub reconstruct_payload-build_delta_payload :
      (store : Dict String StoredPayload) (base id : String) (prev next : PageIr)
      → reconstruct_payload store base ≡ ok prev
      → get id store ≡ none
      → next.version ≡ "1"
      → node_id prev.root ≡ node_id next.root
      → UniqueIds prev.root
      → UniqueIds next.root
      → IsCanonical prev.root
      → IsCanonical next.root
      → Detects hash hashes prev next
      → let d = diff_ir_nodes_for_local_save hash hashes (some prev) next in
        reconstruct_payload (put id (build_delta_payload base next d.changed d.removed) store) id
        ≡ ok next
  unfolding build_delta_payload
  reconstruct_payload-build_delta_payload store base id prev next h fresh v root once once' can can'
        det =
      let d = diff_ir_nodes_for_local_save hash hashes (some prev) next in
      let p = build_delta_payload base next d.changed d.removed in
      let (n, c) =
        (reconstruct_payload_iff (put id p store) base prev).0
          (reconstruct_payload-put_new store id base p prev fresh h) in
      (reconstruct_payload_iff (put id p store) id next).1 (
        suc n,
        link (ground (arith, get-put id id p store, string_eq.same_key_iff id id)) c
            (apply_stored_delta-save hash hashes prev next once once' can can' root det v),
      )
