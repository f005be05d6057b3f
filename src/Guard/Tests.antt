-- ===== src/Guard/Tests.antt =====
-- Runs of the guard, and its theorems at concrete histories.
use anvilkit_plugin_collab_y.Base.{
  ℕ, ◌≡◌, refl, ◌↔◌, true, none, some, List, [], ◌∷◌, ◌++◌, nat_eq, length, if◌then◌else◌,
}
use anvilkit_plugin_collab_y.Base.IdSet.{mem, add, discard}
use anvilkit_plugin_collab_y.Guard.{
  Guard, Call, start, finish, suppress, create_remote_dispatch_guard, begin, end_dispatch,
  note_suppressed, is_active, step, run,
}
use anvilkit_plugin_collab_y.Guard.Depth.{outstanding, run-end_dispatch, is_active_iff}

abbrev nested : List Call
nested = start ∷ start ∷ finish 1 10 ∷ finish 1 11 ∷ suppress ∷ []

abbrev fresh_guard : Guard
fresh_guard = record {
  grace_ms = 0;
  depth = 0;
  next_token = 1;
  open_tokens = [];
  closed_at = none;
  sync_suppress_in_flight = 0;
  last_dispatch_sync_suppress = 0;
}

nested_active : is_active (run (create_remote_dispatch_guard none) nested) ≡ true
unfolding is_active run step create_remote_dispatch_guard begin end_dispatch note_suppressed mem add
    discard
nested_active = refl

-- The first dispatch was ended already, so ending it again counts for nothing.
run-end_dispatch_example :
    let g = create_remote_dispatch_guard none in
    (mem 1 (run g nested).open_tokens ≡ outstanding 1 1 nested)
    × (run g (nested ++ (finish 1 9 ∷ suppress ∷ []))
        ≡ run g (
            nested
            ++ (if outstanding 1 1 nested then finish 1 9 ∷ suppress ∷ [] else (suppress ∷ []))))
run-end_dispatch_example = run-end_dispatch none nested (suppress ∷ []) 1 9

is_active_iff_example :
    let g = run (create_remote_dispatch_guard (some 5)) nested in
    ((is_active g ≡ true) ↔ ((t : ℕ) × (outstanding t 1 nested ≡ true)))
    × (g.depth ≡ length g.open_tokens)
is_active_iff_example = is_active_iff (some 5) nested
