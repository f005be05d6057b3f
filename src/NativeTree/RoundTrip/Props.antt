-- ===== src/NativeTree/RoundTrip/Props.antt =====
-- The own fields that the reader makes of the map of a node.
use anvilkit_plugin_collab_y.Base.{
  ℕ, ◌≤◌, ◌≡◌, refl, sym, ap, ◌∙◌, subst, inl, inr, ◌⊎◌, ◌≢◌, true, false, Option, none, some, [],
  ◌∷◌, String, ◌==◌, string_eq, beq-cases, if◌then◌else◌, ltb, arith, In,
}
use anvilkit_plugin_collab_y.Base.Dict.{Dict, keys, get, put, get-put, get-of_In}
use anvilkit_plugin_collab_y.Base.IdSet.{mem, Distinct}
use anvilkit_plugin_collab_y.Ir.{Json, null, bool, num, str, arr, obj, Own, Node, own, node_id}
use anvilkit_plugin_collab_y.NativeTree.Diff.{child_ids}
use anvilkit_plugin_collab_y.NativeTree.Store.{
  Raw, text, not_text, NodeMap, truthy, stringify_truthy,
}
use anvilkit_plugin_collab_y.NativeTree.Write.{encode}
use anvilkit_plugin_collab_y.NativeTree.Write.Lookup.{get-absent}
use anvilkit_plugin_collab_y.NativeTree.Read.{
  ReadGuard, set_property, read_prop, read_props, array_only, object_only, own_of, parse_map,
  parse_node_own,
}
use anvilkit_plugin_collab_y.NativeTree.Read.Decoded.{PropGuards, check_decoded_prop}
use anvilkit_plugin_collab_y.NativeTree.RoundTrip.{encoded, Holds, SameOwn, Readable}

array_only-stringify : (a : Option Json) → array_only a ≡ a → array_only (stringify_truthy a) ≡ a
unfolding stringify_truthy truthy
array_only-stringify none h = refl
array_only-stringify (some (arr vs)) h = refl
array_only-stringify (some null) h = cc (h)
array_only-stringify (some (bool b)) h = cc (h)
array_only-stringify (some (num n)) h = cc (h)
array_only-stringify (some (str s)) h = cc (h)
array_only-stringify (some (obj fs)) h = cc (h)

object_only-stringify : (a : Option Json) → object_only a ≡ a → object_only (stringify_truthy a) ≡ a
unfolding stringify_truthy truthy
object_only-stringify none h = refl
object_only-stringify (some (obj fs)) h = refl
object_only-stringify (some null) h = cc (h)
object_only-stringify (some (bool b)) h = cc (h)
object_only-stringify (some (num n)) h = cc (h)
object_only-stringify (some (str s)) h = cc (h)
object_only-stringify (some (arr vs)) h = cc (h)

module _ (units : Json → ℕ) (l : PropGuards) where
  -- A prop that the reader takes over.
  record Taken (k : String) (raw : Raw) : Type 0 where
    value : Json
    is_encoded : raw ≡ encode units value
    bytes : units value ≤ l.max_bytes
    structure : check_decoded_prop value l ≡ none
    named : (k == "__proto__") ≡ false

  abbrev decoded : Option Raw → Option Json
  decoded none = none
  decoded (some not_text) = none
  decoded (some (text u v)) = v

  read_prop-put :
      (k : String) (v : Json) (props : Dict String Json) (g : ReadGuard)
      → units v ≤ l.max_bytes
      → check_decoded_prop v l ≡ none
      → (k == "__proto__") ≡ false
      → read_prop l k (encode units v) props g ≡ (put k v props, g)
  unfolding read_prop set_property
  read_prop-put k v props g b s n =
      let small : ltb l.max_bytes (units v) ≡ false = ground (arith, b) in rw (small, s, n) refl

  read_props-cons :
      (j : String) (raw : Raw) (es : Dict String Raw) (props : Dict String Json) (g : ReadGuard)
      → Taken j raw
      → (v : Json) × (decoded (some raw) ≡ some v)
        × (read_props l ((j, raw) ∷ es) props g ≡ read_props l es (put j v props) g)
  unfolding read_props
  read_props-cons j raw es props g x =
      let step = read_prop-put j x.value props g x.bytes x.structure x.named in
      (
        x.value,
        ap (λ r. decoded (some r)) x.is_encoded,
        ap (λ r. let p = read_prop l j r props g in read_props l es p.0 p.1) x.is_encoded
            ∙ ap (λ (p : Dict String Json × ReadGuard). read_props l es p.0 p.1) step,
      )

  -- The value read under a name over what was read before.
  abbrev over : Option Raw → Option Json → Option Json
  over none b = b
  over (some raw) b = decoded (some raw)

  read_props-get :
      (es : Dict String Raw) (props : Dict String Json) (g : ReadGuard) (k : String)
      → Distinct (keys es)
      → ((j : String) (raw : Raw) → In (j, raw) es → Taken j raw)
      → ((read_props l es props g).1 ≡ g)
        × (get k (read_props l es props g).0 ≡ over (get k es) (get k props))
  unfolding read_props get
  read_props-get [] props g k d t = (refl, refl)
  read_props-get ((j, raw) ∷ es) props g k d t =
      let (v, dv, step) = read_props-cons j raw es props g (t j raw (inl refl)) in
      let ih = read_props-get es (put j v props) g k d.1 (λ i w h. t i w (inr h)) in
      (ap (λ r. r.1) step ∙ ih.0, ap (λ r. get k r.0) step ∙ ih.1 ∙ later v dv (beq-cases j k))
    where
      later :
          (v : Json)
          → decoded (some raw) ≡ some v
          → ((j == k) ≡ true) × (j ≡ k) ⊎ ((j == k) ≡ false) × (j ≢ k)
          → over (get k es) (get k (put j v props))
            ≡ over (if j == k then some raw else get k es) (get k props)
      later v dv (inl (q, e)) =
          let gone = get-absent k es (subst (λ z. mem z (keys es) ≡ false) e d.0) in
          rw (q, gone, get-put k j v props, q) (sym dv)
      later v dv (inr (q, e)) = rw (q, get-put k j v props, q) refl

  encoded-some :
      (o : Option Json) (raw : Raw)
      → encoded units o ≡ some raw
      → (v : Json) × (o ≡ some v) × (raw ≡ encode units v)
  encoded-some none raw h = absurd (cc (h))
  encoded-some (some v) raw h = (v, refl, cc (h))

  -- The props of a node that the tree holds, as they are read.
  props_read :
      (m : NodeMap) (n : Node) (g : ReadGuard) (k : String)
      → (h : Holds units m n) → Readable units l n
      → ((read_props l h.props [] g).1 ≡ g)
        × (get k (read_props l h.props [] g).0 ≡ get k (own n).props)
  unfolding get
  props_read m n g k h r =
      let (a, b) = read_props-get h.props [] g k h.names (λ j raw i.
        let (v, p, e) =
          encoded-some (get j (own n).props) raw
            (sym (h.values j) ∙ get-of_In j raw h.props h.names i) in
        let ok = r.props j v p in
        record { value = v; is_encoded = e; bytes = ok.0; structure = ok.1; named = ok.2 }) in
      (a, b ∙ ap (λ o. over o none) (h.values k) ∙ values (get k (own n).props))
    where
      values : (o : Option Json) → over (encoded units o) none ≡ o
      values none = refl
      values (some v) = refl

  -- A node that the tree holds is parsed with its child ids, and nothing is reported.
  pub parse_node_own-Holds :
      (nodes : Dict String NodeMap) (m : NodeMap) (n : Node) (g : ReadGuard)
      → get (node_id n) nodes ≡ some m
      → Holds units m n
      → Readable units l n
      → (o : Own) × (parse_node_own l nodes (node_id n) g ≡ (some (o, child_ids n), g))
        × SameOwn o (own n)
  unfolding parse_node_own parse_map
  parse_node_own-Holds nodes m n g e h r =
      let p = read_props l h.props [] g in
      let o = own_of (node_id n) (own n).kind m p.0 in
      (
        o,
        rw
            (
              parse_node_own,
              e,
              parse_map,
              h.kind,
              h.has_props,
              h.children,
              (props_read m n g "" h r).0,
            )
            refl,
        record {
          id = refl;
          kind = refl;
          slot = h.slot;
          slot_kind = h.slot_kind;
          props = λ k. (props_read m n g k h r).1;
          assets = ap array_only h.assets ∙ array_only-stringify (own n).assets r.assets;
          meta = ap object_only h.meta ∙ object_only-stringify (own n).meta r.meta;
        },
      )
