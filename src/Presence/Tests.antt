-- ===== src/Presence/Tests.antt =====
-- A record of a peer with a long display name, and its validation.
use anvilkit_plugin_collab_y.Base.{
  ℕ, ◌≡◌, refl, true, false, none, some, Bool, List, [], ◌∷◌, String, ◌==◌, string_eq,
  if◌then◌else◌,
}
use anvilkit_plugin_collab_y.Ir.{Json, str, num, arr, obj, field, stop, cons, nil}
use anvilkit_plugin_collab_y.Ir.Access.{lookup, string_of}
use anvilkit_plugin_collab_y.Presence.{
  Texts, PresenceState, validate_presence_state, sanitize_display_name, sanitize_units,
  is_printable, validate_peer_info, checked, display_name_of, sanitize_presence_selection,
  collect_ids, node_id_of, is_valid_node_id,
}
use anvilkit_plugin_collab_y.Presence.Safe.{SafeState, validate_presence_state-SafeState}

-- Texts of which only "" and "a" are told apart.
abbrev two_texts : Texts
two_texts = record {
  units = λ s. if s == "" then [] else 97 ∷ [];
  of_units = λ us. elim us [ [] ↦ "" | u ∷ rest ↦ "a" ];
  color_ok = λ s. s == "red";
}

rebuilt :
    (b : Bool)
    → let us : List ℕ = if b then [] else 97 ∷ [] in
      two_texts.units (two_texts.of_units (sanitize_units us)) ≡ sanitize_units us
unfolding sanitize_units is_printable
rebuilt true = refl
rebuilt false = refl

two_texts_rebuild :
    (s : String)
    → two_texts.units (sanitize_display_name two_texts s) ≡ sanitize_units (two_texts.units s)
unfolding sanitize_display_name
two_texts_rebuild s = rebuilt (s == "")

abbrev sent : Json
sent = obj (
    field "peer" (obj (field "id" (str "a") (field "displayName" (str "a") stop))) (
      field "selection" (obj (field "nodeIds" (arr (cons (str "a") (cons (num 7) nil))) stop))
        (field "extra" (str "a") stop)))

abbrev received : PresenceState
received = record {
  peer = record { id = "a"; display_name = some "a"; color = none };
  cursor = none;
  selection = some ("a" ∷ []);
  viewport = none;
  focused_id = none;
  activity = none;
  version = none;
}

validate_presence_state-SafeState_example : SafeState two_texts received
unfolding validate_presence_state validate_peer_info checked lookup string_of display_name_of
    sanitize_display_name sanitize_units is_printable sanitize_presence_selection collect_ids
    node_id_of is_valid_node_id
validate_presence_state-SafeState_example =
    validate_presence_state-SafeState two_texts two_texts_rebuild sent received refl
