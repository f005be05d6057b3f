-- ===== src/Conflicts/Drafts.antt =====
-- The props that overrides give a node, and what overrides are made of fields.
use anvilkit_plugin_collab_y.Base.{
  ◌≡◌, refl, ap, ◌∙◌, sym, inl, inr, Bool, true, false, Option, none, some, or_else, List, [], ◌∷◌,
  String, ◌==◌, string_eq, if◌then◌else◌, arith, subst, if-both, Bool-cases, beq-cases,
}
use anvilkit_plugin_collab_y.Base.Dict.{
  Dict, keys, get, put, get-put, get-del, mem-keys, put-Distinct,
}
use anvilkit_plugin_collab_y.Base.IdSet.{Distinct, mem}
use anvilkit_plugin_collab_y.Ir.{Json, option_json_eq}
use anvilkit_plugin_collab_y.Conflicts.Detect.{ConflictField}
use anvilkit_plugin_collab_y.Conflicts.Resolve.{
  Overrides, add_override, local_overrides, set_prop, draft_props,
}

-- A draft whose flag is down is what it was.
pub draft_props_unchanged :
    (es : List (String × Option Json)) (d : Dict String Json) (c : Bool)
    → (draft_props es d c).1 ≡ false
    → ((draft_props es d c).0 ≡ d) × (c ≡ false)
unfolding draft_props
draft_props_unchanged [] d c h = (refl, h)
draft_props_unchanged ((k, v) ∷ es) d c h = elim (Bool-cases (get k d == v)) [
  | inl t ↦ rw t (draft_props_unchanged es d c (rw t at h))
  | inr f ↦ absurd (cc ((draft_props_unchanged es (set_prop k v d) true (rw f at h)).1))
]

get-set_prop :
    (j k : String) (v : Option Json) (m : Dict String Json)
    → get j (set_prop k v m) ≡ (if k == j then v else get j m)
unfolding set_prop
get-set_prop j k none m = get-del j k m
get-set_prop j k (some v) m = get-put j k v m

-- Of distinct props, each gets the value that is listed for it.
pub get-draft_props :
    (es : List (String × Option Json)) (d : Dict String Json) (c : Bool) (k : String)
    → Distinct (keys es)
    → get k (draft_props es d c).0 ≡ or_else (get k es) (get k d)
unfolding draft_props get mem
get-draft_props [] d c k h = refl
get-draft_props ((j, v) ∷ es) d c k h =
    if-both
      (λ (x : Dict String Json × Bool).
        get k x.0 ≡ or_else (if j == k then some v else get k es) (get k d))
      (get j d == v) _ _
      (λ t. get-draft_props es d c k h.1 ∙ elim (beq-cases j k) [
        | inl (u, q) ↦
            ground (arith, u, absent q, held q ((option_json_eq.same_key_iff (get j d) v).0 t))
        | inr (u, q) ↦ ground (arith, u)
      ])
      (λ f. get-draft_props es (set_prop j v d) true k h.1 ∙ elim (beq-cases j k) [
        | inl (u, q) ↦ ground (arith, u, absent q, get-set_prop k j v d)
        | inr (u, q) ↦ ground (arith, u, get-set_prop k j v d)
      ])
  where
    absent : j ≡ k → get k es ≡ none
    absent q = ground (arith, mem-keys k es, subst (λ i. mem i (keys es) ≡ false) q h.0)

    held : j ≡ k → get j d ≡ v → get k d ≡ v
    held q e = ap (λ i. get i d) (sym q) ∙ e

-- The value that overrides have for a prop of a node.
abbrev pub override_value : Overrides → String → String → Option (Option Json)
override_value ov id k = elim (get id ov) [ none ↦ none | some m ↦ get k m ]

-- No prop stands twice among a node's overrides.
abbrev pub Proper : Overrides → Type 0
Proper ov = (id : String) → Distinct (keys (or_else (get id ov) []))

pub add_override-Proper :
    (node prop : String) (v : Option Json) (ov : Overrides)
    → Proper ov
    → Proper (add_override node prop v ov)
unfolding add_override
add_override-Proper node prop v ov w id =
    subst (λ (o : Option (Dict String (Option Json))). Distinct {K = String} (keys (or_else o [])))
      (sym (get-put id node (put prop v (or_else (get node ov) [])) ov))
      (if-both
        (λ (o : Option (Dict String (Option Json))). Distinct {K = String} (keys (or_else o [])))
        (node == id) _ _ (λ t. put-Distinct prop v (or_else (get node ov) []) (w node)) (λ f. w id))

override_value-add_override :
    (node prop : String) (v : Option Json) (ov : Overrides) (id k : String)
    → override_value (add_override node prop v ov) id k ≡ (
        if node == id
        then (if prop == k then some v else override_value ov id k)
        else override_value ov id k)
unfolding add_override get
override_value-add_override node prop v ov id k = elim (beq-cases node id) [
  | inl (t, q) ↦ ground (
    arith,
    t,
    get-put id node (put prop v (or_else (get node ov) [])) ov,
    get-put k prop v (or_else (get node ov) []),
    ap (λ i. override_value ov i k) q,
  )
  | inr (f, q) ↦ ground (arith, f, get-put id node (put prop v (or_else (get node ov) [])) ov)
]

-- The local value of the last listed field for a prop of a node.
unfoldable pub last_field : String → String → List ConflictField → Option (Option Json)
last_field id k [] = none
last_field id k (f ∷ fs) = elim (last_field id k fs) [
  | some v ↦ some v
  | none ↦ if f.node == id then (if f.prop == k then some f.local_value else none) else none
]

pub override_value-local_overrides :
    (fs : List ConflictField) (ov : Overrides) (id k : String)
    → override_value (local_overrides fs ov) id k
      ≡ elim (last_field id k fs) [ some v ↦ some v | none ↦ override_value ov id k ]
unfolding local_overrides last_field
override_value-local_overrides [] ov id k = refl
override_value-local_overrides (f ∷ fs) ov id k = ground (
  arith,
  override_value-local_overrides fs (add_override f.node f.prop f.local_value ov) id k,
  override_value-add_override f.node f.prop f.local_value ov id k,
)

pub local_overrides-Proper :
    (fs : List ConflictField) (ov : Overrides) → Proper ov → Proper (local_overrides fs ov)
unfolding local_overrides
local_overrides-Proper [] ov w = w
local_overrides-Proper (f ∷ fs) ov w =
    local_overrides-Proper fs (add_override f.node f.prop f.local_value ov)
      (add_override-Proper f.node f.prop f.local_value ov w)
