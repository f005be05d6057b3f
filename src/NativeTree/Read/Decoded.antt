-- ===== src/NativeTree/Read/Decoded.antt =====
-- `checkDecodedProp`: the bounds on the structure of a decoded prop value.
pub mod Bounds
use anvilkit_plugin_collab_y.Base.{
  ℕ, zero, suc, ◌+◌, Option, none, some, List, [], ◌∷◌, if◌then◌else◌, ltb,
}
use anvilkit_plugin_collab_y.Ir.{
  Json, null, bool, num, str, arr, obj, Items, nil, cons, Fields, stop, field,
}

pub data PropTrip : Type 0 where
  prop_depth prop_array prop_nodes : PropTrip

pub record PropGuards : Type 0 where
  pub max_bytes : ℕ
  pub max_depth : ℕ
  pub max_array_length : ℕ
  pub max_nodes : ℕ

-- `v.length` of an array.
unfoldable pub items_length : Items → ℕ
items_length nil = 0
items_length (cons v vs) = suc (items_length vs)

-- The stack, its top first.
abbrev pub Frames : Type 0
Frames = List (Json × ℕ)

unfoldable pub push_items : Items → ℕ → Frames → Frames
push_items nil depth stack = stack
push_items (cons v vs) depth stack = push_items vs depth ((v, depth) ∷ stack)

unfoldable pub push_fields : Fields → ℕ → Frames → Frames
push_fields stop depth stack = stack
push_fields (field k v fs) depth stack = push_fields fs depth ((v, depth) ∷ stack)

-- What a round pushes for the value it took.
unfoldable pub push_parts : Json → ℕ → Frames → Frames
push_parts (arr vs) depth stack = push_items vs (depth + 1) stack
push_parts (obj fs) depth stack = push_fields fs (depth + 1) stack
push_parts _ depth stack = stack

abbrev pub array_items : Json → ℕ
array_items (arr vs) = items_length vs
array_items _ = 0

-- The tests of a round, with `nodes` raised already.
unfoldable pub check_value : PropGuards → ℕ → Json → ℕ → Option PropTrip
check_value limits nodes v depth =
    if ltb limits.max_nodes nodes
    then some prop_nodes
    else if ltb limits.max_depth depth
    then some prop_depth
    else if ltb limits.max_array_length (array_items v)
    then some prop_array
    else none

-- The loop; Bounds shows that the fuel suffices.
unfoldable pub check_loop : ℕ → PropGuards → ℕ → Frames → Option PropTrip
check_loop zero limits nodes stack = none
check_loop (suc fuel) limits nodes [] = none
check_loop (suc fuel) limits nodes ((v, depth) ∷ stack) =
    let rest = check_loop fuel limits (nodes + 1) (push_parts v depth stack) in
    elim (check_value limits (nodes + 1) v depth) [ some reason ↦ some reason | none ↦ rest ]

unfoldable mutual
  pub json_size : Json → ℕ
  json_size (arr vs) = suc (items_size vs)
  json_size (obj fs) = suc (fields_size fs)
  json_size _ = 1

  pub items_size : Items → ℕ
  items_size nil = 0
  items_size (cons v vs) = json_size v + items_size vs

  pub fields_size : Fields → ℕ
  fields_size stop = 0
  fields_size (field k v fs) = json_size v + fields_size fs

unfoldable pub check_decoded_prop : Json → PropGuards → Option PropTrip
check_decoded_prop value limits = check_loop (json_size value) limits 0 ((value, 0) ∷ [])
