-- ===== src/PayloadChain/Total.antt =====
-- The fuel of the two recursions is enough: each round adds an id that is stored and was not on
-- the path, so there are at most as many rounds as stored ids.
use anvilkit_plugin_collab_y.Base.{
  ℕ, beq_refl, Option-cases, subst, sym, ap, ◌∙◌, zero, suc, ◌≤◌, ◌<◌, ◌≡◌, ◌≢◌, inl, inr, true,
  false, not, Option, none, some, List, [], ◌∷◌, String, string_eq, beq-cases, length, keep, arith,
  Bool-cases, is_some, length-keep-le,
}
use anvilkit_plugin_collab_y.Base.Dict.{Dict, keys, get, mem-keys}
use anvilkit_plugin_collab_y.Base.IdSet.{mem}
use anvilkit_plugin_collab_y.Ir.{Json, Node, PageIr, node_id}
use anvilkit_plugin_collab_y.PayloadChain.{
  StoredNode, StoredPayload, full, delta, Result, ok, err, out_of_fuel, ◌>>=◌, map_all, map_present,
  build, build_children, replay, overlay, apply_stored_delta, reconstruct, reconstruct_payload,
}

-- How many of the keys are not on the path.
abbrev unseen : List String → List String → ℕ
unseen path ks = length (keep (λ k. not (mem k path)) ks)

unseen_le : (id : String) (path ks : List String) → unseen (id ∷ path) ks ≤ unseen path ks
unfolding mem
unseen_le id path [] = omega arith
unseen_le id path (k ∷ ks) = ground (arith, unseen_le id path ks)

unseen_falls :
    (id : String) (path ks : List String)
    → mem id ks ≡ true
    → mem id path ≡ false
    → unseen (id ∷ path) ks < unseen path ks
unfolding mem
unseen_falls id path [] h f = cc
unseen_falls id path (k ∷ ks) h f = elim (beq-cases k id) [
  | inl (t, e) ↦
      subst (λ k. unseen (id ∷ path) (k ∷ ks) < unseen path (k ∷ ks)) (sym e) (here id path ks f)
  | inr (n, e) ↦ ground (arith, unseen_falls id path ks, unseen_le id path ks)
]
  where
    here :
        (id : String) (path ks : List String)
        → mem id path ≡ false
        → unseen (id ∷ path) (id ∷ ks) < unseen path (id ∷ ks)
    here id path ks f = ground (arith, beq_refl id, unseen_le id path ks)

map_all_total :
    {A : Type 0} (f : String → Result A) (ids : List String)
    → ((id : String) → f id ≢ err out_of_fuel)
    → map_all f ids ≢ err out_of_fuel
unfolding map_all
map_all_total f [] h e = cc
map_all_total f (id ∷ ids) h e = ground (arith, h id, map_all_total f ids h)

map_present_total :
    {A : Type 0} (f : String → Result A) (ids : Option (List String))
    → ((id : String) → f id ≢ err out_of_fuel)
    → map_present f ids ≢ err out_of_fuel
unfolding map_present
map_present_total f none h e = cc
map_present_total f (some ids) h e = ground (arith, map_all_total f ids h)

-- One more id of a stored entry on the path leaves fewer rounds.
fewer :
    {V : Type 0} (nodes : Dict String V) (path : List String) (id : String) (v : V) (fuel : ℕ)
    → get id nodes ≡ some v
    → mem id path ≡ false
    → unseen path (keys nodes) < suc fuel
    → unseen (id ∷ path) (keys nodes) < fuel
fewer nodes path id v fuel g new h =
    let there : mem id (keys nodes) ≡ true = mem-keys id nodes ∙ ap is_some g in
    omega (arith, unseen_falls id path (keys nodes) there new)

build_children_total :
    (f : String → Result Node) (stored : StoredNode)
    → ((id : String) → f id ≢ err out_of_fuel)
    → build_children f stored ≢ err out_of_fuel
unfolding build_children
build_children_total f stored h e = ground (arith, map_present_total f stored.child_ids h)

build_total :
    (nodes : Dict String StoredNode) (fuel : ℕ) (visiting : List String) (id : String)
    → unseen visiting (keys nodes) < fuel
    → build nodes fuel visiting id ≢ err out_of_fuel
unfolding build
build_total nodes zero visiting id h e = absurd (omega arith)
build_total nodes (suc fuel) visiting id h e = elim (Bool-cases (mem id visiting)) [
  | inl seen ↦ cc (rw seen at e)
  | inr new ↦ elim (Option-cases (get id nodes)) [
    | inl gone ↦ cc (rw (new, gone, build) at e)
    | inr (stored, found) ↦
        let below = λ (c : String).
          build_total nodes fuel (id ∷ visiting) c
            (fewer nodes visiting id stored fuel found new h) in
        build_children_total _ stored below (rw (new, found) at e)
  ]
]

pub apply_stored_delta_total :
    (base : PageIr) (changed : List StoredNode) (removed : List String) (assets metadata : Json)
    → apply_stored_delta base changed removed assets metadata ≢ err out_of_fuel
unfolding apply_stored_delta
apply_stored_delta_total base changed removed assets metadata e =
    let nodes = overlay base.root changed removed in
    ground (
      arith,
      build_total nodes (suc (length (keys nodes))) [] (node_id base.root)
          (omega (arith, length-keep-le (λ k. not (mem k [])) (keys nodes))),
    )

replay_total :
    (f : String → Result PageIr) (p : StoredPayload)
    → ((id : String) → f id ≢ err out_of_fuel)
    → replay f p ≢ err out_of_fuel
unfolding replay
replay_total f (full ir) h e = cc
replay_total f (delta base changed removed assets metadata) h e = late (f base) (h base) e
  where
    late :
        (r : Result PageIr)
        → r ≢ err out_of_fuel
        → (r >>= λ ir. apply_stored_delta ir changed removed assets metadata) ≢ err out_of_fuel
    late (ok ir) h e = apply_stored_delta_total ir changed removed assets metadata e
    late (err x) h e = h (ground arith)

reconstruct_total :
    (store : Dict String StoredPayload) (fuel : ℕ) (seen : List String) (id : String)
    → unseen seen (keys store) < fuel
    → reconstruct (λ k. get k store) fuel seen id ≢ err out_of_fuel
unfolding reconstruct
reconstruct_total store zero seen id h e = absurd (omega arith)
reconstruct_total store (suc fuel) seen id h e = elim (Bool-cases (mem id seen)) [
  | inl old ↦ cc (rw old at e)
  | inr new ↦ elim (Option-cases (get id store)) [
    | inl gone ↦ cc (rw (new, gone, reconstruct) at e)
    | inr (p, found) ↦
        let below = λ (b : String).
          reconstruct_total store fuel (id ∷ seen) b (fewer store seen id p fuel found new h) in
        replay_total _ p below (rw (new, found) at e)
  ]
]

-- Over any store the walk along `base` pointers ends: `reconstructPayload` returns a document or
-- throws one of its own errors, for chains with cycles and for damaged records too.
pub reconstruct_payload-total :
    (store : Dict String StoredPayload) (id : String)
    → reconstruct_payload store id ≢ err out_of_fuel
unfolding reconstruct_payload
reconstruct_payload-total store id =
    reconstruct_total store (suc (length (keys store))) [] id
      (omega (arith, length-keep-le (λ k. not (mem k [])) (keys store)))
