-- ===== src/NativeTree/Read/Notes.antt =====
-- What a guard takes over a node's own fields: no id and no count, and each reason once.
use anvilkit_plugin_collab_y.Base.{
  ◌≡◌, refl, ap, ◌∙◌, subst, inl, inr, true, false, Option, none, some, List, [], ◌∷◌, ◌++◌, String,
  string_eq, ltb, arith, Bool-cases, Option-cases,
}
use anvilkit_plugin_collab_y.Base.Dict.{Dict, get}
use anvilkit_plugin_collab_y.Base.IdSet.{mem, add, Distinct, add-Distinct}
use anvilkit_plugin_collab_y.Ir.{Json}
use anvilkit_plugin_collab_y.NativeTree.Store.{
  Raw, text, not_text, NodeMap, get_or_create_props_map,
}
use anvilkit_plugin_collab_y.NativeTree.Read.{
  ReadGuardTrip, trip_eq, ReadGuard, note_guard, trip, read_prop, read_props, Shallow, parse_map,
  parse_node_own,
}
use anvilkit_plugin_collab_y.NativeTree.Read.Decoded.{PropGuards, check_decoded_prop}

-- The reported reasons are the recorded ones, none of them twice.
abbrev pub ReportsOnce : ReadGuard → Type 0
ReportsOnce g = (g.calls ≡ g.fired_reasons) × Distinct g.calls

-- The rest of a guard.
abbrev pub SameVisits : ReadGuard → ReadGuard → Type 0
SameVisits g h = (h.visited ≡ g.visited) × (h.count ≡ g.count)

note_guard-ReportsOnce :
    (g : ReadGuard) (r : ReadGuardTrip) → ReportsOnce g → ReportsOnce (note_guard g r)
unfolding note_guard add
note_guard-ReportsOnce g r (e, d) = elim (Bool-cases (mem r g.fired_reasons)) [
  | inl t ↦ rw t (e, d)
  | inr f ↦ rw f (ap (λ xs. xs ++ (r ∷ [])) e, subst Distinct (added f) (add-Distinct r g.calls d))
]
  where
    added : mem r g.fired_reasons ≡ false → add r g.calls ≡ g.calls ++ (r ∷ [])
    added f = ground (arith, e, f)

note_guard-SameVisits : (g : ReadGuard) (r : ReadGuardTrip) → SameVisits g (note_guard g r)
unfolding note_guard
note_guard-SameVisits g r = ground arith

pub trip-ReportsOnce : (g : ReadGuard) (r : ReadGuardTrip) → ReportsOnce g → ReportsOnce (trip g r)
unfolding trip
trip-ReportsOnce g r h = elim (Bool-cases g.tripped) [
  | inl t ↦ rw t h
  | inr f ↦ rw f (note_guard-ReportsOnce (record g { tripped = true }) r h)
]

pub trip-SameVisits : (g : ReadGuard) (r : ReadGuardTrip) → SameVisits g (trip g r)
unfolding trip
trip-SameVisits g r = elim (Bool-cases g.tripped) [
  | inl t ↦ rw t (refl, refl)
  | inr f ↦ rw f (note_guard-SameVisits (record g { tripped = true }) r)
]

-- What a part of the read may do to a guard without entering a node.
abbrev pub Notes : ReadGuard → ReadGuard → Type 0
Notes g h = SameVisits g h × (ReportsOnce g → ReportsOnce h)

note_guard-Notes : (g : ReadGuard) (r : ReadGuardTrip) → Notes g (note_guard g r)
note_guard-Notes g r = (note_guard-SameVisits g r, note_guard-ReportsOnce g r)

pub Notes-refl : (g : ReadGuard) → Notes g g
Notes-refl g = ((refl, refl), λ h. h)

pub Notes-trans : (g h k : ReadGuard) → Notes g h → Notes h k → Notes g k
Notes-trans g h k ((a, b), p) ((c, d), q) = ((c ∙ a, d ∙ b), λ r. q (p r))

read_prop-Notes :
    (l : PropGuards) (key : String) (raw : Raw) (props : Dict String Json) (g : ReadGuard)
    → Notes g (read_prop l key raw props g).1
unfolding read_prop
read_prop-Notes l key not_text props g = Notes-refl g
read_prop-Notes l key (text units parsed) props g = elim (Bool-cases (ltb l.max_bytes units)) [
  | inl t ↦ rw t (note_guard-Notes g _)
  | inr f ↦ elim (Option-cases parsed) [
    | inl e ↦ rw (f, e) (Notes-refl g)
    | inr (v, e) ↦ elim (Option-cases (check_decoded_prop v l)) [
      | inl c ↦ rw (f, e, c) (Notes-refl g)
      | inr (reason, c) ↦ rw (f, e, c) (note_guard-Notes g _)
    ]
  ]
]

read_props-Notes :
    (l : PropGuards) (es : List (String × Raw)) (props : Dict String Json) (g : ReadGuard)
    → Notes g (read_props l es props g).1
unfolding read_props
read_props-Notes l [] props g = Notes-refl g
read_props-Notes l ((key, raw) ∷ es) props g =
    let r = read_prop l key raw props g in
    Notes-trans g r.1 (read_props l es r.0 r.1).1 (read_prop-Notes l key raw props g)
      (read_props-Notes l es r.0 r.1)

-- A node that is parsed stands under its id.
abbrev pub HasId : String → Option Shallow → Type 0
HasId id none = Unit
HasId id (some s) = s.0.id ≡ id

pub parse_node_own-Notes :
    (l : PropGuards) (nodes : Dict String NodeMap) (id : String) (g : ReadGuard)
    → let r = parse_node_own l nodes id g in Notes g r.1 × HasId id r.0
unfolding parse_node_own parse_map
parse_node_own-Notes l nodes id g = elim (Option-cases (get id nodes)) [
  | inl e ↦ rw (e, parse_node_own) (Notes-refl g, tt)
  | inr (m, e) ↦ elim (Option-cases m.kind) [
    | inl k ↦ rw (e, parse_node_own, parse_map, k) (Notes-refl g, tt)
    | inr (kind, k) ↦
        rw (e, parse_node_own, parse_map, k)
          (read_props-Notes l (get_or_create_props_map m) [] g, refl)
  ]
]
