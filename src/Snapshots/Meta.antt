-- ===== src/Snapshots/Meta.antt =====
-- src/utils/snapshots.ts: the metadata record of a snapshot as it stands in the shared map, and
-- its tolerant and its strict reading. A slot's text is what `JSON.parse` makes of it; `none` is
-- a text that it refuses.
use anvilkit_plugin_collab_y.Base.{
  Bool, false, ◌&&◌, not, Option, none, some, String, ◌==◌, string_eq, if◌then◌else◌,
}
use anvilkit_plugin_collab_y.Ir.Access.{
  member, is_object, string_of, is_string, is_text, is_non_empty_string, optional, is_array_of,
  with_field,
}
use anvilkit_plugin_collab_y.Ir.{Json, str, obj, stop, field}

pub record SnapshotMeta : Type 0 where
  pub id : String
  pub label : Option String
  pub saved_at : String
  pub page_ir_hash : String
  pub delta : Option Json

unfoldable pub is_valid_op_kind : String → Json → Bool
is_valid_op_kind kind op =
    if kind == "add-node"
    then is_string (member "path" op) && optional_object (member "node" op)
    else if kind == "remove-node"
    then is_string (member "path" op) && is_string (member "nodeId" op)
    else if kind == "move-node"
    then is_string (member "from" op)
      && is_string (member "to" op)
      && is_string (member "nodeId" op)
    else if kind == "change-prop"
    then is_string (member "path" op) && is_string (member "key" op)
    else if kind == "change-children"
    then is_string (member "path" op)
      && is_array_of is_text (member "before" op)
      && is_array_of is_text (member "after" op)
    else if kind == "meta-changed"
    then is_string (member "path" op) && is_string (member "key" op)
    else false
  where
    optional_object : Option Json → Bool
    optional_object none = false
    optional_object (some v) = is_object v

unfoldable pub is_valid_ir_diff_op : Json → Bool
is_valid_ir_diff_op op =
    if is_object op
    then elim (string_of (member "kind" op)) [ some k ↦ is_valid_op_kind k op | none ↦ false ]
    else false

unfoldable pub is_valid_ir_diff : Json → Bool
is_valid_ir_diff v = is_array_of is_valid_ir_diff_op (some v)

-- What the strict reading says is wrong.
pub data MetaDefect : Type 0 where
  not_json not_an_object bad_id bad_hash bad_saved_at bad_label bad_delta : MetaDefect

pub data Checked (A : Type 0) : Type 0 where
  valid : A → Checked A
  defect : MetaDefect → Checked A

-- `date_ok`: the text parses to a finite time that is not before 1970.
module _ (date_ok : String → Bool) where
  unfoldable pub is_valid_saved_at : Option Json → Bool
  is_valid_saved_at o = elim (string_of o) [ some s ↦ date_ok s | none ↦ false ]

  unfoldable pub is_snapshot_meta : Json → Bool
  is_snapshot_meta v =
      is_non_empty_string (member "id" v)
      && optional is_text (member "label" v)
      && is_string (member "pageIRHash" v)
      && is_valid_saved_at (member "savedAt" v)
      && optional is_valid_ir_diff (member "delta" v)

  -- A text of a validated record's field.
  abbrev pub text_at : String → Json → String
  text_at k v = elim (string_of (member k v)) [ some s ↦ s | none ↦ "" ]

  -- The validated record as the type has it.
  abbrev pub as_meta : Json → SnapshotMeta
  as_meta v = record {
    id = text_at "id" v;
    label = string_of (member "label" v);
    saved_at = text_at "savedAt" v;
    page_ir_hash = text_at "pageIRHash" v;
    delta = member "delta" v;
  }

  unfoldable pub parse_snapshot_meta : Option Json → Option SnapshotMeta
  parse_snapshot_meta none = none
  parse_snapshot_meta (some v) = if is_snapshot_meta v then some (as_meta v) else none

  unfoldable pub decode_snapshot_meta_strict : Option Json → Checked SnapshotMeta
  decode_snapshot_meta_strict none = defect not_json
  decode_snapshot_meta_strict (some v) =
      if not (is_object v)
      then defect not_an_object
      else if not (is_non_empty_string (member "id" v))
      then defect bad_id
      else if not (is_string (member "pageIRHash" v))
      then defect bad_hash
      else if not (is_valid_saved_at (member "savedAt" v))
      then defect bad_saved_at
      else if not (optional is_text (member "label" v))
      then defect bad_label
      else if not (optional is_valid_ir_diff (member "delta" v))
      then defect bad_delta
      else valid (as_meta v)

-- `JSON.stringify` of a record: a key that is absent or undefined is left out.
unfoldable pub encode_meta : SnapshotMeta → Json
encode_meta m = obj (
    field "id" (str m.id) (
      with_field "label" (elim m.label [ some l ↦ some (str l) | none ↦ none ])
        (field "savedAt" (str m.saved_at)
          (field "pageIRHash" (str m.page_ir_hash) (with_field "delta" m.delta stop)))))
