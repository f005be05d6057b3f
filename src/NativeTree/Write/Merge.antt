-- ===== src/NativeTree/Write/Merge.antt =====
-- What `reconcileProps` leaves under each name of a shared `props` map.
use anvilkit_plugin_collab_y.Base.{
  ℕ, ◌≡◌, refl, ap, ◌∙◌, subst, inl, inr, Bool, true, false, not, ◌&&◌, ◌||◌, Option, none, some,
  List, [], ◌∷◌, String, ◌==◌, string_eq, if◌then◌else◌, beq-cases, beq_refl, arith, is_some,
  if-both,
}
use anvilkit_plugin_collab_y.Base.Dict.{
  Dict, keys, get, put, put_all, del, get-put, get-del, mem-keys, put-Distinct, del-Distinct,
}
use anvilkit_plugin_collab_y.Base.IdSet.{mem, Distinct}
use anvilkit_plugin_collab_y.Ir.{Json, json_eq, option_json_eq, option_string_eq}
use anvilkit_plugin_collab_y.NativeTree.Store.{Raw}
use anvilkit_plugin_collab_y.NativeTree.Write.{
  key_in, clear_props, set_props, reconcile_props, encode, inherited_names,
}
use anvilkit_plugin_collab_y.NativeTree.Write.Lookup.{get-absent}
use anvilkit_plugin_collab_y.NativeTree.Write.Skip.{get-encoded}

if_same : (b : Bool) (x : Option Raw) → (if b then x else x) ≡ x
if_same b x = ground arith

if_put :
    (b : Bool) (k j : String) (w : Raw) (m : Dict String Raw)
    → get k (if b then m else put j w m)
      ≡ (if b then get k m else (if j == k then some w else get k m))
if_put b k j w m = ground (arith, get-put k j w m)

module _ (units : Json → ℕ) where
  -- The value that the loop over the props leaves under a name.
  abbrev pub set_value : Option Json → Option Json → Option Raw → Option Raw
  set_value base none cur = cur
  set_value base (some v) cur = if some v == base then cur else some (encode units v)

  pub get-set_props :
      (k : String) (base : Dict String Json) (es : Dict String Json) (target : Dict String Raw)
      → Distinct (keys es)
      → get k (set_props units base es target) ≡ set_value (get k base) (get k es) (get k target)
  unfolding set_props get
  get-set_props k base [] target d = refl
  get-set_props k base ((j, v) ∷ es) target d =
      let b = some v == get j base in
      let one : get k (if b then target else put j (encode units v) target)
          ≡ (if b then get k target else (if j == k then some (encode units v) else get k target)) =
        if_put b k j (encode units v) target in
      let ih = get-set_props k base es (if b then target else put j (encode units v) target) d.1 in
      elim (beq-cases j k) [
        | inl (t, e) ↦
            let gone = get-absent k es (subst (λ x. mem x (keys es) ≡ false) e d.0) in
            rw (ih, gone, t, one, t)
              (ap (λ x. if some v == get x base then get k target else some (encode units v)) e)
        | inr (f, e) ↦
            rw (ih, f, one, f) (ap (set_value (get k base) (get k es)) (if_same b (get k target)))
      ]

  get-clear_props :
      (k : String) (props : Dict String Json) (ks : List String) (target : Dict String Raw)
      → get k (clear_props props ks target)
        ≡ (if mem k ks && not (key_in k props) then none else get k target)
  unfolding clear_props mem
  get-clear_props k props [] target = refl
  get-clear_props k props (j ∷ ks) target = elim (beq-cases j k) [
    | inl (t, e) ↦
        subst
          (λ x.
            get x (clear_props props (j ∷ ks) target)
            ≡ (if mem x (j ∷ ks) && not (key_in x props) then none else get x target))
          e
          (ground (
            arith,
            beq_refl j,
            get-clear_props j props ks target,
            get-clear_props j props ks (del j target),
            get-del j j target,
          ))
    | inr (f, e) ↦ ground (
      arith,
      f,
      get-clear_props k props ks target,
      get-clear_props k props ks (del j target),
      get-del k j target,
    )
  ]

  -- What a save makes of a prop: its versions in the baseline and in the document, whether plain
  -- objects inherit the name, and the shared value.
  abbrev pub prop_after : Option Json → Option Json → Bool → Option Raw → Option Raw
  prop_after none none inherited live = live
  prop_after (some b) none inherited live = if inherited then live else none
  prop_after base (some v) inherited live = if some v == base then live else some (encode units v)

  prop_after-eq :
      (base next : Option Json) (inherited : Bool) (live : Option Raw)
      → (if is_some base && not (is_some next || inherited) then none else set_value base next live)
        ≡ prop_after base next inherited live
  prop_after-eq none none i live = refl
  prop_after-eq (some b) none true live = refl
  prop_after-eq (some b) none false live = refl
  prop_after-eq none (some v) i live = refl
  prop_after-eq (some b) (some v) i live = refl

  -- A save writes only the props that the document changed against the baseline and drops those
  -- that it removed: a prop that is the same in both or in neither keeps the value that the
  -- shared map has, another peer's included. A removed prop whose name plain objects inherit is
  -- kept too.
  pub reconcile_props-local :
      (k : String) (target : Dict String Raw) (props base : Dict String Json)
      → Distinct (keys props)
      → Distinct (keys base)
      → get k (reconcile_props units target props (some base))
        ≡ prop_after (get k base) (get k props) (mem k inherited_names) (get k target)
  unfolding reconcile_props key_in
  reconcile_props-local k target props base dp db =
      let base_encoded = put_all base [] in
      let e = get-encoded k base db in
      get-clear_props k props (keys base_encoded) (set_props units base_encoded props target)
      ∙ rw (mem-keys k base_encoded, get-set_props k base_encoded props target dp, e)
          (prop_after-eq (get k base) (get k props) (mem k inherited_names) (get k target))

  pub set_props-Distinct :
      (base : Dict String Json) (es : List (String × Json)) (target : Dict String Raw)
      → Distinct (keys target)
      → Distinct (keys (set_props units base es target))
  unfolding set_props
  set_props-Distinct base [] target d = d
  set_props-Distinct base ((k, v) ∷ es) target d = set_props-Distinct base es _ (
      if-both (λ (m : Dict String Raw). Distinct (keys m)) (some v == get k base) _ _ (λ t. d)
        (λ f. put-Distinct k (encode units v) target d))

  pub clear_props-Distinct :
      (props : Dict String Json) (ks : List String) (target : Dict String Raw)
      → Distinct (keys target)
      → Distinct (keys (clear_props props ks target))
  unfolding clear_props
  clear_props-Distinct props [] target d = d
  clear_props-Distinct props (k ∷ ks) target d = clear_props-Distinct props ks _ (
      if-both (λ (m : Dict String Raw). Distinct (keys m)) (key_in k props) _ _ (λ t. d)
        (λ f. del-Distinct k target d))
