-- ===== src/Ir/Access.antt =====
-- Reading a JSON value as the sources do that check untrusted ones: the fields of an object, and
-- `isObject` of src/utils/snapshots.ts and src/utils/presence-schema.ts.
use anvilkit_plugin_collab_y.Base.{
  Bool, true, false, Option, none, some, String, ◌==◌, string_eq, if◌then◌else◌, not, ◌&&◌,
}
use anvilkit_plugin_collab_y.Ir.Data.{Json, str, arr, obj, Items, nil, cons, Fields, stop, field}

unfoldable pub lookup : String → Fields → Option Json
lookup k stop = none
lookup k (field j v fs) = if j == k then some v else lookup k fs

-- `value.k` of a value that is an object or an array; an array has none of the names asked for.
abbrev pub member : String → Json → Option Json
member k (obj fs) = lookup k fs
member k _ = none

unfoldable pub is_object : Json → Bool
is_object (obj fs) = true
is_object _ = false

unfoldable pub string_of : Option Json → Option String
string_of (some (str s)) = some s
string_of _ = none

abbrev pub is_string : Option Json → Bool
is_string o = elim (string_of o) [ some s ↦ true | none ↦ false ]

unfoldable pub is_non_empty_string : Option Json → Bool
is_non_empty_string o = elim (string_of o) [ some s ↦ not (s == "") | none ↦ false ]

-- `value === undefined || p(value)`
abbrev pub optional : (Json → Bool) → Option Json → Bool
optional p none = true
optional p (some v) = p v

unfoldable pub every_item : (Json → Bool) → Items → Bool
every_item p nil = true
every_item p (cons v vs) = p v && every_item p vs

-- `Array.isArray(value) && value.every(p)`
unfoldable pub is_array_of : (Json → Bool) → Option Json → Bool
is_array_of p (some (arr vs)) = every_item p vs
is_array_of p _ = false

abbrev pub is_text : Json → Bool
is_text v = is_string (some v)

abbrev pub with_field : String → Option Json → Fields → Fields
with_field k none fs = fs
with_field k (some v) fs = field k v fs
