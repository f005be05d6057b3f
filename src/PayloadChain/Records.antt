-- ===== src/PayloadChain/Records.antt =====
-- src/utils/payload-chain.ts: the JSON record of a delta, and `decodePayload`, which checks what
-- is stored under an id. What it accepts is passed on as it stands.
use anvilkit_plugin_collab_y.Base.{
  ◌≡◌, ◌↔◌, refl, ap, ap₂, ◌∙◌, Bool, true, false, not, ◌&&◌, Option, none, some, List, [], ◌∷◌,
  map, every, String, ◌==◌, string_eq, if◌then◌else◌, arith,
}
use anvilkit_plugin_collab_y.Base.Dict.{Dict}
use anvilkit_plugin_collab_y.Ir.{Json, str, arr, obj, Items, nil, cons, Fields, stop, field}
use anvilkit_plugin_collab_y.Ir.Access.{
  lookup, member, is_object, string_of, is_string, is_text, is_non_empty_string, optional,
  every_item, is_array_of, with_field,
}
use anvilkit_plugin_collab_y.PayloadChain.{StoredNode}

abbrev pub items_of : List Json → Items
items_of [] = nil
items_of (v ∷ vs) = cons v (items_of vs)

abbrev pub fields_of : Dict String Json → Fields
fields_of [] = stop
fields_of ((k, v) ∷ es) = field k v (fields_of es)

abbrev pub texts_of : List String → Json
texts_of ids = arr (items_of (map str ids))

abbrev pub text_field : Option String → Option Json
text_field none = none
text_field (some s) = some (str s)

-- A stored node as `JSON.stringify` writes it.
unfoldable pub encode_stored_node : StoredNode → Json
encode_stored_node s = obj (
    field "id" (str s.content.id) (
      field "type" (str s.content.kind) (
        field "props" (obj (fields_of s.content.props)) (
          with_field "slot" (text_field s.content.slot) (
            with_field "slotKind" (text_field s.content.slot_kind) (
              with_field "assets" s.content.assets (
                with_field "meta" s.content.meta (
                  with_field "childIds"
                    (elim s.child_ids [ none ↦ none | some ids ↦ some (texts_of ids) ]) stop))))))))

unfoldable pub encode_delta : String → List StoredNode → List String → Json → Json → Json
encode_delta base changed removed assets metadata = obj (
    field "kind" (str "delta") (
      field "base" (str base) (
        field "changed" (arr (items_of (map encode_stored_node changed))) (
          field "removed" (texts_of removed)
            (field "assets" assets (field "metadata" metadata stop))))))

abbrev pub is_array : Option Json → Bool
is_array o = is_array_of (λ v. true) o

abbrev pub object_at : Option Json → Bool
object_at none = false
object_at (some v) = is_object v

abbrev pub filled : Json → Bool
filled v = is_non_empty_string (some v)

unfoldable pub is_stored_node : Json → Bool
is_stored_node v =
    is_object v
    && is_non_empty_string (member "id" v)
    && is_string (member "type" v)
    && object_at (member "props" v)
    && optional is_text (member "slot" v)
    && optional (λ ids. is_array_of is_text (some ids)) (member "childIds" v)

unfoldable pub is_page_ir : Json → Bool
is_page_ir v = elim (string_of (member "version" v)) [
  | some version ↦ version == "1" && object_at (member "root" v)
  | none ↦ false
]

pub data PayloadDefect : Type 0 where
  not_json unsupported_version malformed_delta bad_changed bad_removed unrecognized : PayloadDefect

-- A keyframe's document, a delta's record, or what is wrong.
pub data Decoded : Type 0 where
  keyframe delta_record : Json → Decoded
  refused : PayloadDefect → Decoded

unfoldable pub decode_delta_payload : Json → Decoded
decode_delta_payload v =
    if not (
      is_non_empty_string (member "base" v)
      && is_array (member "changed" v)
      && is_array (member "removed" v)
      && is_array (member "assets" v)
      && object_at (member "metadata" v))
    then refused malformed_delta
    else if not (is_array_of is_stored_node (member "changed" v))
    then refused bad_changed
    else if not (is_array_of filled (member "removed" v))
    then refused bad_removed
    else delta_record v

abbrev pub keyframe_of : Option Json → Decoded
keyframe_of none = refused unsupported_version
keyframe_of (some ir) = if is_page_ir ir then keyframe ir else refused unsupported_version

abbrev pub legacy : Json → Decoded
legacy v = if is_page_ir v then keyframe v else refused unrecognized

-- `none` is a text that `JSON.parse` refuses.
unfoldable pub decode_payload : Option Json → Decoded
decode_payload none = refused not_json
decode_payload (some v) =
    if is_object v
    then elim (string_of (member "kind" v)) [
      | some kind ↦
          if kind == "full"
          then keyframe_of (member "ir" v)
          else if kind == "delta"
          then decode_delta_payload v
          else legacy v
      | none ↦ legacy v
    ]
    else refused unrecognized

-- Fields that another key's optional field does not hide.
lookup_beside :
    (j k : String) (o : Option Json) (fs : Fields)
    → (k == j) ≡ false
    → lookup j (with_field k o fs) ≡ lookup j fs
unfolding lookup
lookup_beside j k none fs h = refl
lookup_beside j k (some v) fs h = rw h refl

every_text : (ids : List String) → every_item is_text (items_of (map str ids)) ≡ true
unfolding every_item string_of
every_text [] = refl
every_text (id ∷ ids) = every_text ids

every-filled :
    (ids : List String)
    → every_item filled (items_of (map str ids)) ≡ every (λ id. not (id == "")) ids
unfolding every_item string_of is_non_empty_string
every-filled [] = refl
every-filled (id ∷ ids) = ap (λ b. not (id == "") && b) (every-filled ids)

every_any : (vs : Items) → every_item (λ v. true) vs ≡ true
unfolding every_item
every_any nil = refl
every_any (cons v vs) = every_any vs

slot_is_text :
    (o : Option String) (fs : Fields)
    → lookup "slot" fs ≡ none
    → optional is_text (lookup "slot" (with_field "slot" (text_field o) fs)) ≡ true
unfolding lookup string_of
slot_is_text none fs h = rw h refl
slot_is_text (some s) fs h = refl

abbrev kids_field : Option (List String) → Option Json
kids_field o = elim o [ none ↦ none | some ids ↦ some (texts_of ids) ]

kids_are_texts :
    (o : Option (List String))
    → optional
        (λ ids. is_array_of is_text (some ids))
        (lookup "childIds" (with_field "childIds" (kids_field o) stop))
      ≡ true
unfolding lookup is_array_of
kids_are_texts none = refl
kids_are_texts (some ids) = every_text ids

-- What is written after the slot of a node.
abbrev rest_of : StoredNode → Fields
rest_of s = with_field "slotKind" (text_field s.content.slot_kind) (
    with_field "assets" s.content.assets
      (with_field "meta" s.content.meta (with_field "childIds" (kids_field s.child_ids) stop)))

lookup-rest_of :
    (j : String) (s : StoredNode)
    → ("slotKind" == j) ≡ false
    → ("assets" == j) ≡ false
    → ("meta" == j) ≡ false
    → lookup j (rest_of s) ≡ lookup j (with_field "childIds" (kids_field s.child_ids) stop)
lookup-rest_of j s a b c =
    lookup_beside j "slotKind" (text_field s.content.slot_kind) _ a
    ∙ lookup_beside j "assets" s.content.assets _ b
    ∙ lookup_beside j "meta" s.content.meta _ c

and_true : (b : Bool) → (b && true && true && true && true) ≡ b
and_true b = ground arith

is_stored_node-encode :
    (s : StoredNode) → is_stored_node (encode_stored_node s) ≡ not (s.content.id == "")
unfolding is_stored_node encode_stored_node lookup string_of is_object is_non_empty_string
is_stored_node-encode s =
    let slot = slot_is_text s.content.slot (rest_of s) (
      lookup-rest_of "slot" s refl refl refl
      ∙ lookup_beside "slot" "childIds" (kids_field s.child_ids) stop refl) in
    let kids =
      ap (optional (λ ids. is_array_of is_text (some ids))) (
        lookup_beside "childIds" "slot" (text_field s.content.slot) (rest_of s) refl
        ∙ lookup-rest_of "childIds" s refl refl refl)
      ∙ kids_are_texts s.child_ids in
    ap₂ (λ a b. not (s.content.id == "") && true && true && a && b) slot kids
    ∙ and_true (not (s.content.id == ""))

every_stored :
    (ss : List StoredNode)
    → every_item is_stored_node (items_of (map encode_stored_node ss))
      ≡ every (λ s. not (s.content.id == "")) ss
unfolding every_item
every_stored [] = refl
every_stored (s ∷ ss) = ap₂ (λ a b. a && b) (is_stored_node-encode s) (every_stored ss)

-- What the record of a delta needs to be read again.
unfoldable pub is_readable : String → List StoredNode → List String → Json → Json → Bool
is_readable base changed removed assets metadata =
    not (base == "")
    && is_array (some assets)
    && is_object metadata
    && every (λ s. not (s.content.id == "")) changed
    && every (λ id. not (id == "")) removed

-- A delta that was written is read again, as it was written, exactly when its base, the ids of its
-- nodes and the removed ids are not empty, its assets are an array and its metadata an object.
pub decode_payload-encode_delta :
    (base : String) (changed : List StoredNode) (removed : List String) (assets metadata : Json)
    → (decode_payload (some (encode_delta base changed removed assets metadata))
        ≡ delta_record (encode_delta base changed removed assets metadata))
      ↔ (is_readable base changed removed assets metadata ≡ true)
unfolding decode_payload decode_delta_payload encode_delta is_readable lookup string_of is_object
    is_non_empty_string is_array_of
decode_payload-encode_delta base changed removed assets metadata =
    rw
      (
        every_stored changed,
        every-filled removed,
        every_any (items_of (map encode_stored_node changed)),
        every_any (items_of (map str removed)),
      )
      (λ h. ground arith, λ h. ground arith)
