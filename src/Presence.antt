-- ===== src/Presence.antt =====
-- src/utils/presence-schema.ts: the validation of presence records that come from other peers.
-- Doubles has the comparisons of numbers, Fields and Safe what a validated record satisfies. The pattern of
-- colours (isValidColor) is an argument, and so are the UTF-16 units of a text.
pub mod Doubles
pub mod Fields
pub mod Safe
mod Tests
use anvilkit_plugin_collab_y.Base.{
  ℕ, zero, suc, Bool, true, false, not, ◌&&◌, ◌||◌, Option, none, some, List, [], ◌∷◌, String,
  length, take, keep, if◌then◌else◌, ltb, leb, nat_eq, ◌==◌,
}
use anvilkit_plugin_collab_y.Ir.{Json, null, bool, num, str, arr, obj, Items, nil, cons}
use anvilkit_plugin_collab_y.Ir.Access.{member, is_object, string_of}
use anvilkit_plugin_collab_y.Presence.Doubles.{
  finite, clamp_finite_number, zero_double, min_viewport_zoom, max_viewport_zoom, max_safe_integer,
}

abbrev pub max_display_name_length : ℕ
max_display_name_length = 64

abbrev pub max_selection_ids : ℕ
max_selection_ids = 256

abbrev pub max_node_id_length : ℕ
max_node_id_length = 256

pub record Texts : Type 0 where
  pub units : String → List ℕ
  pub of_units : List ℕ → String
  pub color_ok : String → Bool

pub record PeerInfo : Type 0 where
  pub id : String
  pub display_name : Option String
  pub color : Option String

pub record Viewport : Type 0 where
  pub x : ℕ
  pub y : ℕ
  pub zoom : ℕ
  pub width : Option ℕ
  pub height : Option ℕ

pub record Activity : Type 0 where
  pub typing : Option Bool
  pub updated_at : Option ℕ

-- A cursor is kept as it came, with what else it carries.
pub record PresenceState : Type 0 where
  pub peer : PeerInfo
  pub cursor : Option Json
  pub selection : Option (List String)
  pub viewport : Option Viewport
  pub focused_id : Option String
  pub activity : Option Activity
  pub version : Option ℕ

infixl 5 ◌>>=◌
abbrev pub ◌>>=◌ : {A B : Type 0} → Option A → (A → Option B) → Option B
none >>= f = none
some a >>= f = f a

-- A field that may be absent, and rejects the record where it is malformed.
unfoldable pub checked : {A : Type 0} → (Json → Option A) → Option Json → Option (Option A)
checked f none = some none
checked f (some v) = elim (f v) [ none ↦ none | some a ↦ some (some a) ]

abbrev pub guarded : {A : Type 0} → Bool → A → Option A
guarded b a = if b then some a else none

unfoldable pub number_of : Json → Option ℕ
number_of (num n) = some n
number_of _ = none

unfoldable pub bool_of : Json → Option Bool
bool_of (bool b) = some b
bool_of _ = none

-- `Number.isFinite(value)` of a field.
unfoldable pub finite_of : Option Json → Option ℕ
finite_of (some (num n)) = if finite n then some n else none
finite_of _ = none

-- A code unit that `/[\u0000-\u001f\u007f]/g` does not match.
unfoldable pub is_printable : ℕ → Bool
is_printable u = not (ltb u 32 || u == 127)

unfoldable pub sanitize_units : List ℕ → List ℕ
sanitize_units us =
    let stripped = keep is_printable us in
    if leb (length stripped) max_display_name_length
    then stripped
    else take max_display_name_length stripped

unfoldable pub clamped : ℕ → ℕ → Json → Option ℕ
clamped low high v = elim (number_of v) [ none ↦ none | some n ↦ clamp_finite_number n low high ]

unfoldable pub validate_presence_cursor : Json → Option Json
validate_presence_cursor v = do
  x ← finite_of (member "x" v)
  y ← finite_of (member "y" v)
  guarded (is_object v) v

unfoldable pub all_texts : Items → Bool
all_texts nil = true
all_texts (cons (str s) vs) = all_texts vs
all_texts (cons _ vs) = false

-- The strict one: any entry that is not a text rejects the whole.
unfoldable pub validate_presence_selection : Json → Option Json
validate_presence_selection v = elim (member "nodeIds" v) [
  | some (arr vs) ↦ guarded (all_texts vs) v
  | _ ↦ none
]

unfoldable pub validate_presence_viewport : Json → Option Viewport
validate_presence_viewport v = do
  x ← finite_of (member "x" v)
  y ← finite_of (member "y" v)
  given ← member "zoom" v
  zoom ← clamped min_viewport_zoom max_viewport_zoom given
  width ← checked (clamped zero_double max_safe_integer) (member "width" v)
  height ← checked (clamped zero_double max_safe_integer) (member "height" v)
  some (record { x = x; y = y; zoom = zoom; width = width; height = height })

unfoldable pub validate_presence_activity : Json → Option Activity
validate_presence_activity v = do
  typing ← checked bool_of (member "typing" v)
  updated_at ← checked (clamped zero_double max_safe_integer) (member "updatedAt" v)
  guarded (is_object v) (record { typing = typing; updated_at = updated_at })

module _ (texts : Texts) where
  unfoldable pub sanitize_display_name : String → String
  sanitize_display_name s = texts.of_units (sanitize_units (texts.units s))

  unfoldable pub display_name_of : Json → Option String
  display_name_of v = elim (string_of (some v)) [
    | some s ↦ some (sanitize_display_name s)
    | none ↦ none
  ]

  unfoldable pub color_of : Json → Option String
  color_of v = elim (string_of (some v)) [ some s ↦ guarded (texts.color_ok s) s | none ↦ none ]

  unfoldable pub validate_peer_info : Json → Option PeerInfo
  validate_peer_info v = do
    id ← string_of (member "id" v)
    display_name ← checked display_name_of (member "displayName" v)
    color ← checked color_of (member "color" v)
    guarded (not (ltb (length (texts.units id)) 1))
        (record { id = id; display_name = display_name; color = color })

  unfoldable pub is_valid_node_id : String → Bool
  is_valid_node_id s =
      ltb 0 (length (texts.units s)) && leb (length (texts.units s)) max_node_id_length

  unfoldable pub node_id_of : Json → Option String
  node_id_of v = elim (string_of (some v)) [ some s ↦ guarded (is_valid_node_id s) s | none ↦ none ]

  -- The loop over the ids, with room for so many more.
  unfoldable pub collect_ids : ℕ → Items → List String
  collect_ids zero vs = []
  collect_ids (suc room) nil = []
  collect_ids (suc room) (cons v vs) = elim (node_id_of v) [
    | some s ↦ s ∷ collect_ids room vs
    | none ↦ collect_ids (suc room) vs
  ]

  unfoldable pub sanitize_presence_selection : Json → Option (List String)
  sanitize_presence_selection v = elim (member "nodeIds" v) [
    | some (arr vs) ↦ some (collect_ids max_selection_ids vs)
    | _ ↦ none
  ]

  unfoldable pub validate_presence_state : Json → Option PresenceState
  validate_presence_state v = do
    given ← member "peer" v
    peer ← validate_peer_info given
    cursor ← checked validate_presence_cursor (member "cursor" v)
    selection ← checked sanitize_presence_selection (member "selection" v)
    viewport ← checked validate_presence_viewport (member "viewport" v)
    focused_id ← checked node_id_of (member "focusedId" v)
    activity ← checked validate_presence_activity (member "activity" v)
    version ← checked (clamped zero_double max_safe_integer) (member "version" v)
    some (record {
      peer = peer;
      cursor = cursor;
      selection = selection;
      viewport = viewport;
      focused_id = focused_id;
      activity = activity;
      version = version;
    })
