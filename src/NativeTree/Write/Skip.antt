-- ===== src/NativeTree/Write/Skip.antt =====
-- A node that a save did not change is written back as it is.
use anvilkit_plugin_collab_y.Base.{
  ℕ, ◌≡◌, refl, sym, ap, ◌∙◌, inl, inr, true, none, some, List, [], ◌∷◌, String, string_eq,
  beq_refl, arith, Option, Option-cases, is_some, In,
}
use anvilkit_plugin_collab_y.Base.Dict.{
  Dict, keys, get, put_all, has, get-put_all, mem-keys, get-of_In,
}
use anvilkit_plugin_collab_y.Base.IdSet.{mem, Distinct}
use anvilkit_plugin_collab_y.Ir.{Json, Own, Node, own, json_eq, option_json_eq, option_string_eq}
use anvilkit_plugin_collab_y.NativeTree.Diff.{child_ids}
use anvilkit_plugin_collab_y.NativeTree.Reconcile.{same_list}
use anvilkit_plugin_collab_y.NativeTree.Store.{Raw, NodeMap, stringify_truthy}
use anvilkit_plugin_collab_y.NativeTree.Write.{
  write_or_clear, write_text, key_in, clear_props, set_props, reconcile_props, reconcile_child_ids,
  write_node,
}
use anvilkit_plugin_collab_y.NativeTree.Write.Lookup.{last_of-get}

-- A map that has what a write of any node puts there: id, type, and the two containers.
abbrev pub Carries : Option NodeMap → Own → Type 0
Carries none o = ⊥
Carries (some m) o =
    (m.id ≡ some o.id)
    × (m.kind ≡ some o.kind)
    × (is_some m.props ≡ true)
    × (is_some m.child_ids ≡ true)

pub same_list_refl : (xs : List String) → same_list xs xs ≡ true
unfolding same_list
same_list_refl [] = refl
same_list_refl (x ∷ xs) = ground (arith, beq_refl x, same_list_refl xs)

set_props_same :
    (units : Json → ℕ) (base : Dict String Json) (es : List (String × Json))
    (target : Dict String Raw)
    → ((k : String) (v : Json) → In (k, v) es → get k base ≡ some v)
    → set_props units base es target ≡ target
unfolding set_props
set_props_same units base [] target h = refl
set_props_same units base ((k, v) ∷ es) target h =
    rw (h k v (inl refl), beq_refl (some v))
      (set_props_same units base es target (λ j w i. h j w (inr i)))

clear_props_same :
    (props : Dict String Json) (ks : List String) (target : Dict String Raw)
    → ((k : String) → mem k ks ≡ true → has k props ≡ true)
    → clear_props props ks target ≡ target
unfolding clear_props key_in mem
clear_props_same props [] target h = refl
clear_props_same props (k ∷ ks) target h =
    let kept : has k props ≡ true = h k (ground (arith, beq_refl k)) in
    rw kept (clear_props_same props ks target (λ j i. h j (ground (arith, i))))

pub get-encoded :
    (k : String) (props : Dict String Json)
    → Distinct (keys props)
    → get k (put_all props []) ≡ get k props
unfolding get
get-encoded k props d = ground (arith, get-put_all k props [], last_of-get k props d)

pub reconcile_props_same :
    (units : Json → ℕ) (target : Dict String Raw) (props : Dict String Json)
    → Distinct (keys props)
    → reconcile_props units target props (some props) ≡ target
unfolding reconcile_props
reconcile_props_same units target props d =
    ap (clear_props props (keys (put_all props []))) (
      set_props_same units (put_all props []) props target
        (λ k v i. get-encoded k props d ∙ get-of_In k v props d i))
    ∙ clear_props_same props (keys (put_all props [])) target
        (λ k i. ap is_some (sym (get-encoded k props d)) ∙ sym (mem-keys k (put_all props [])) ∙ i)

pub write_node_same :
    (units : Json → ℕ) (m : NodeMap) (n p : Node)
    → own n ≡ own p
    → child_ids n ≡ child_ids p
    → Distinct (keys (own n).props)
    → Carries (some m) (own n)
    → write_node units m n (some p) ≡ m
unfolding write_node write_or_clear write_text reconcile_child_ids
write_node_same units m n p e c d (i, k, hp, hc) = elim (Option-cases m.props) [
  | inl g ↦ cc (g, hp)
  | inr (ps, ep) ↦ elim (Option-cases m.child_ids) [
    | inl g ↦ cc (g, hc)
    | inr (cs, ec) ↦ ground (
      arith,
      reconcile_props_same units ps (own n).props d,
      same_list_refl (child_ids n),
      beq_refl (own n).slot,
      beq_refl (own n).slot_kind,
      beq_refl (stringify_truthy (own n).assets),
      beq_refl (stringify_truthy (own n).meta),
    )
  ]
]
