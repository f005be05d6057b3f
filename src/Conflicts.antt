-- ===== src/Conflicts.antt =====
-- src/utils/conflicts.ts: which edits of the local user a merged remote document overlaps with,
-- and the window in which that is asked. A listener is a number, and its calls are `fired`. The
-- merge hook of the host is an argument: it may be absent, throw, or give no resolution.
pub mod Detect
pub mod Overlap
pub mod Leaves
pub mod Resolve
pub mod Drafts
pub mod Overrides
pub mod Window
mod Tests
use anvilkit_plugin_collab_y.Base.{
  ℕ, ◌-◌, Bool, true, false, ◌&&◌, not, Option, none, some, is_some, List, [], ◌∷◌, ◌++◌, map,
  String, nat_eq, if◌then◌else◌, ltb,
}
use anvilkit_plugin_collab_y.Base.IdSet.{add, discard}
use anvilkit_plugin_collab_y.Ir.{Json, PageIr}
use anvilkit_plugin_collab_y.Conflicts.Detect.{ConflictField, Conflict, compute_conflict}
use anvilkit_plugin_collab_y.Conflicts.Resolve.{Resolution, build_resolved_ir}

pub record ConflictEvent : Type 0 where
  pub local_peer : Json
  pub remote_peer : Option Json
  pub node_ids : List String
  pub at : String
  pub fields : List ConflictField

-- What a call of the hook does.
pub data HookResult : Type 0 where
  throws : HookResult
  resolves : Option Resolution → HookResult

pub record Conflicts : Type 0 where
  pub stale_after_ms : ℕ
  pub local_peer : Json
  pub listeners : List ℕ
  pub last_local_ir : Option PageIr
  pub baseline_ir : Option PageIr
  pub first_unconfirmed_at : Option ℕ
  pub fired : List (ℕ × ConflictEvent)

unfoldable pub create_conflicts : ℕ → Json → Conflicts
create_conflicts stale peer = record {
  stale_after_ms = stale;
  local_peer = peer;
  listeners = [];
  last_local_ir = none;
  baseline_ir = none;
  first_unconfirmed_at = none;
  fired = [];
}

unfoldable pub on_conflict : Conflicts → ℕ → Conflicts
on_conflict c callback = record c { listeners = add callback c.listeners }

unfoldable pub unsubscribe : Conflicts → ℕ → Conflicts
unsubscribe c callback = record c { listeners = discard callback c.listeners }

unfoldable pub note_local_save : Conflicts → PageIr → ℕ → Conflicts
note_local_save c ir now = elim c.first_unconfirmed_at [
  | none ↦ record c {
    first_unconfirmed_at = some now;
    baseline_ir = c.last_local_ir;
    last_local_ir = some ir;
  }
  | some at ↦ record c { last_local_ir = some ir }
]

unfoldable pub close_window : Conflicts → Conflicts
close_window c = record c { first_unconfirmed_at = none; baseline_ir = none }

unfoldable pub set_last_local_ir : Conflicts → PageIr → Conflicts
set_last_local_ir c ir = record c { last_local_ir = some ir }

unfoldable pub destroy : Conflicts → Conflicts
destroy c = record c { listeners = [] }

-- What `maybeFire` is called with besides the remote document, and the time of its event.
pub record Arrival : Type 0 where
  pub remote_peer : Option Json
  pub now : ℕ
  pub at : String

abbrev pub conflict_event : Conflicts → Arrival → Conflict → ConflictEvent
conflict_event c a found = record {
  local_peer = c.local_peer;
  remote_peer = a.remote_peer;
  node_ids = found.node_ids;
  at = a.at;
  fields = found.fields;
}

-- The local save that the window is open for, and since when, while it is not stale.
unfoldable pub open_window : Conflicts → ℕ → Option PageIr
open_window c now = elim c.first_unconfirmed_at [
  | none ↦ none
  | some first ↦ if ltb c.stale_after_ms (now - first) then none else c.last_local_ir
]

abbrev pub no_listeners : List ℕ → Bool
no_listeners [] = true
no_listeners (k ∷ ks) = false

abbrev pub no_ids : List String → Bool
no_ids [] = true
no_ids (id ∷ ids) = false

module _ (hook : Option (ConflictEvent → HookResult)) where
  -- The hook's answer, after the listeners.
  unfoldable pub consult : PageIr → ConflictEvent → Option PageIr
  consult remote event = elim hook [
    | none ↦ none
    | some resolve ↦ elim (resolve event) [
      | throws ↦ none
      | resolves resolution ↦ build_resolved_ir remote event.fields resolution
    ]
  ]

  unfoldable pub fire : Conflicts → Arrival → PageIr → Conflict → Conflicts × Option PageIr
  fire c a remote found = if no_ids found.node_ids then (c, none) else (
    record c { fired = c.fired ++ map (λ k. (k, conflict_event c a found)) c.listeners },
    consult remote (conflict_event c a found),
  )

  unfoldable pub maybe_fire : Conflicts → Arrival → PageIr → Conflicts × Option PageIr
  maybe_fire c a remote =
      if no_listeners c.listeners && not (is_some hook)
      then (c, none)
      else elim (open_window c a.now) [
        | none ↦ (c, none)
        | some local ↦ fire c a remote (compute_conflict c.baseline_ir local remote)
      ]
