-- ===== src/Presence/Safe.antt =====
-- What a validated presence record satisfies.
use anvilkit_plugin_collab_y.Base.{
  ℕ, zero, suc, ◌≤◌, ◌≡◌, refl, sym, ap, ◌∙◌, subst, inl, inr, true, Option, none, some, List,
  String, length, every, ltb, arith, Option-cases,
}
use anvilkit_plugin_collab_y.Ir.{Json, null, bool, num, str, arr, obj, Items, nil, cons}
use anvilkit_plugin_collab_y.Ir.Access.{member, string_of}
use anvilkit_plugin_collab_y.Presence.{
  Texts, PeerInfo, PresenceState, checked, clamped, is_printable, sanitize_units,
  max_display_name_length, max_selection_ids, validate_peer_info, validate_presence_cursor,
  validate_presence_viewport, validate_presence_activity, sanitize_presence_selection,
  validate_presence_state, collect_ids, node_id_of, is_valid_node_id, display_name_of, color_of,
  sanitize_display_name,
}
use anvilkit_plugin_collab_y.Presence.Doubles.{
  zero_double, min_viewport_zoom, max_viewport_zoom, max_safe_integer,
}
use anvilkit_plugin_collab_y.Presence.Fields.{
  some_inj, bind-some, checked-some, guarded-some, Within, clamped-Within, count-Bounds,
  sanitize_units-safe, viewport-zoom,
}

-- A validated field, where it is there.
abbrev When : {A : Type 0} → Option A → (A → Type 0) → Type 0
When {A} o P = (a : A) → o ≡ some a → P a

module _ (texts : Texts) where
  abbrev pub SafePeer : PeerInfo → Type 0
  SafePeer p =
      (ltb 0 (length (texts.units p.id)) ≡ true)
      × When p.display_name (λ s.
        (length (texts.units s) ≤ max_display_name_length)
        × (every is_printable (texts.units s) ≡ true))
      × When p.color (λ s. texts.color_ok s ≡ true)

  -- The id is not empty, a display name short and without control characters, a colour allowed;
  -- at most so many ids are selected, each of them and the focused one valid; the zoom and the
  -- version lie within their bounds.
  abbrev pub SafeState : PresenceState → Type 0
  SafeState s =
      SafePeer s.peer
      × When s.selection
          (λ ids. (length ids ≤ max_selection_ids) × (every (is_valid_node_id texts) ids ≡ true))
      × When s.viewport (λ v. Within min_viewport_zoom max_viewport_zoom v.zoom)
      × When s.focused_id (λ id. is_valid_node_id texts id ≡ true)
      × When s.version (Within zero_double max_safe_integer)

  node_id_of-valid :
      (v : Json) (s : String) → node_id_of texts v ≡ some s → is_valid_node_id texts s ≡ true
  unfolding node_id_of
  node_id_of-valid v s h = elim (Option-cases (string_of (some v))) [
    | inl g ↦ absurd (cc (rw (g, node_id_of) at h))
    | inr (r, g) ↦
        let (t, e) = guarded-some (is_valid_node_id texts r) r s (rw (g, node_id_of) at h) in
        subst (λ x. is_valid_node_id texts x ≡ true) e t
  ]

  color_of-ok : (v : Json) (s : String) → color_of texts v ≡ some s → texts.color_ok s ≡ true
  unfolding color_of
  color_of-ok v s h = elim (Option-cases (string_of (some v))) [
    | inl g ↦ absurd (cc (rw (g, color_of) at h))
    | inr (r, g) ↦
        let (t, e) = guarded-some (texts.color_ok r) r s (rw (g, color_of) at h) in
        subst (λ x. texts.color_ok x ≡ true) e t
  ]

  collect_ids-safe :
      (room : ℕ) (vs : Items)
      → (length (collect_ids texts room vs) ≤ room)
        × (every (is_valid_node_id texts) (collect_ids texts room vs) ≡ true)
  unfolding collect_ids
  collect_ids-safe zero vs = (omega arith, refl)
  collect_ids-safe (suc room) nil = (omega arith, refl)
  collect_ids-safe (suc room) (cons v vs) = elim (Option-cases (node_id_of texts v)) [
    | inl g ↦ rw (g, collect_ids) (collect_ids-safe (suc room) vs)
    | inr (s, g) ↦
        let (few, fine) = collect_ids-safe room vs in
        rw (g, collect_ids) (omega (arith, few), rw (node_id_of-valid v s g, fine) refl)
  ]

  selection-safe :
      (v : Json) (ids : List String)
      → sanitize_presence_selection texts v ≡ some ids
      → (length ids ≤ max_selection_ids) × (every (is_valid_node_id texts) ids ≡ true)
  unfolding sanitize_presence_selection
  selection-safe v ids h = from_items (member "nodeIds" v) h
    where
      from_items :
          (o : Option Json)
          → (elim o [ some (arr vs) ↦ some (collect_ids texts max_selection_ids vs) | _ ↦ none ])
            ≡ some ids
          → (length ids ≤ max_selection_ids) × (every (is_valid_node_id texts) ids ≡ true)
      from_items none e = absurd (cc (e))
      from_items (some (arr vs)) e =
          subst (λ l. (length l ≤ max_selection_ids) × (every (is_valid_node_id texts) l ≡ true))
            (some_inj _ ids e) (collect_ids-safe max_selection_ids vs)
      from_items (some null) e = absurd (cc (e))
      from_items (some (bool b)) e = absurd (cc (e))
      from_items (some (num n)) e = absurd (cc (e))
      from_items (some (str s)) e = absurd (cc (e))
      from_items (some (obj fs)) e = absurd (cc (e))

  peer-safe :
      ((s : String) → texts.units (sanitize_display_name texts s) ≡ sanitize_units (texts.units s))
      → (v : Json) (p : PeerInfo) → validate_peer_info texts v ≡ some p
      → SafePeer p
  unfolding validate_peer_info display_name_of
  peer-safe rebuilds v p h =
      let (id, e0, h0) = bind-some (string_of (member "id" v)) _ p h in
      let (name, e1, h1) =
        bind-some (checked (display_name_of texts) (member "displayName" v)) _ p h0 in
      let (color, e2, h2) = bind-some (checked (color_of texts) (member "color" v)) _ p h1 in
      let (filled, same) = guarded-some _ _ p h2 in
      subst SafePeer same (
        ground arith,
        λ s q. named s (checked-some (display_name_of texts) (member "displayName" v) name s e1 q),
        λ s q.
            let (w, g) = checked-some (color_of texts) (member "color" v) color s e2 q in
            color_of-ok w s g,
      )
    where
      named :
          (s : String)
          → (w : Json) × (display_name_of texts w ≡ some s)
          → (length (texts.units s) ≤ max_display_name_length)
            × (every is_printable (texts.units s) ≡ true)
      named s (w, g) = elim (Option-cases (string_of (some w))) [
        | inl q ↦ absurd (cc (rw (q, display_name_of) at g))
        | inr (r, q) ↦
            let same : sanitize_display_name texts r ≡ s =
              some_inj _ s (rw (q, display_name_of) at g) in
            subst (λ us. (length us ≤ max_display_name_length) × (every is_printable us ≡ true))
              (sym (rebuilds r) ∙ ap texts.units same) (sanitize_units-safe (texts.units r))
      ]

  -- What a peer sends, once validated, is within bounds, whatever it was: the id is not empty,
  -- the display name short and without control characters and the colour allowed; the selected
  -- ids are few and valid, as is the focused one; the zoom and the version are in range.
  pub validate_presence_state-SafeState :
      ((s : String) → texts.units (sanitize_display_name texts s) ≡ sanitize_units (texts.units s))
      → (v : Json) (s : PresenceState) → validate_presence_state texts v ≡ some s
      → SafeState s
  unfolding validate_presence_state
  validate_presence_state-SafeState rebuilds v s h =
      let (given, e0, h0) = bind-some (member "peer" v) _ s h in
      let (peer, e1, h1) = bind-some (validate_peer_info texts given) _ s h0 in
      let (cursor, e2, h2) =
        bind-some (checked validate_presence_cursor (member "cursor" v)) _ s h1 in
      let (selection, e3, h3) =
        bind-some (checked (sanitize_presence_selection texts) (member "selection" v)) _ s h2 in
      let (viewport, e4, h4) =
        bind-some (checked validate_presence_viewport (member "viewport" v)) _ s h3 in
      let (focused, e5, h5) =
        bind-some (checked (node_id_of texts) (member "focusedId" v)) _ s h4 in
      let (activity, e6, h6) =
        bind-some (checked validate_presence_activity (member "activity" v)) _ s h5 in
      let (version, e7, h7) =
        bind-some (checked (clamped zero_double max_safe_integer) (member "version" v)) _ s h6 in
      subst SafeState (some_inj _ s h7) (
        peer-safe rebuilds given peer e1,
        λ ids q.
            let (w, g) =
              checked-some (sanitize_presence_selection texts) (member "selection" v) selection ids
                e3 q in
            selection-safe w ids g,
        λ port q.
            let (w, g) =
              checked-some validate_presence_viewport (member "viewport" v) viewport port e4 q in
            viewport-zoom w port g,
        λ id q.
            let (w, g) = checked-some (node_id_of texts) (member "focusedId" v) focused id e5 q in
            node_id_of-valid w id g,
        λ n q.
            let (w, g) =
              checked-some (clamped zero_double max_safe_integer) (member "version" v) version n e7
                q in
            clamped-Within w zero_double max_safe_integer n count-Bounds g,
      )
