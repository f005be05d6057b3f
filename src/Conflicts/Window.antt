-- ===== src/Conflicts/Window.antt =====
-- The window of unconfirmed saves: it is measured from the first of a burst, against the
-- document before it.
use anvilkit_plugin_collab_y.Base.{
  ℕ, ◌-◌, ◌≡◌, refl, ap, ◌∙◌, sym, inl, inr, true, not, ◌&&◌, Option, none, some, is_some, List, [],
  ◌∷◌, ◌++◌, map, if◌then◌else◌, ltb, arith, if-both, Bool-cases,
}
use anvilkit_plugin_collab_y.Ir.{PageIr}
use anvilkit_plugin_collab_y.Conflicts.{
  Conflicts, ConflictEvent, HookResult, Arrival, note_local_save, open_window, maybe_fire, fire,
  conflict_event, no_ids, no_listeners,
}
use anvilkit_plugin_collab_y.Conflicts.Detect.{Conflict, compute_conflict}
use mathlib.Core.List.{append-nil}

-- Local saves, each at its time.
unfoldable pub note_all : Conflicts → List (PageIr × ℕ) → Conflicts
note_all c [] = c
note_all c ((ir, now) ∷ es) = note_all (note_local_save c ir now) es

unfoldable pub last_saved : PageIr → List (PageIr × ℕ) → PageIr
last_saved ir [] = ir
last_saved ir ((next, now) ∷ es) = last_saved next es

-- What a burst changes of the module: the window's start, its baseline and the last document.
abbrev pub after_burst : Conflicts → ℕ → PageIr → Conflicts
after_burst c first last = record c {
  first_unconfirmed_at = some first;
  baseline_ir = c.last_local_ir;
  last_local_ir = some last;
}

note_all-opened :
    (es : List (PageIr × ℕ)) (c : Conflicts) (first : ℕ) (ir : PageIr)
    → note_all (after_burst c first ir) es ≡ after_burst c first (last_saved ir es)
unfolding note_all note_local_save last_saved
note_all-opened [] c first ir = refl
note_all-opened ((next, now) ∷ es) c first ir = note_all-opened es c first next

-- A burst of saves on a closed window opens it at the time of the first, with the document
-- before the burst as the baseline, and the later ones move only the last document.
pub note_all-burst :
    (c : Conflicts) (ir : PageIr) (first : ℕ) (es : List (PageIr × ℕ))
    → c.first_unconfirmed_at ≡ none
    → note_all c ((ir, first) ∷ es) ≡ after_burst c first (last_saved ir es)
unfolding note_all note_local_save
note_all-burst c ir first es h = rw (h, note_local_save) (note_all-opened es c first ir)

-- What the listeners are called with for a conflict that was found.
abbrev pub calls : Conflicts → Arrival → Conflict → List (ℕ × ConflictEvent)
calls c a found =
    if no_ids found.node_ids then [] else map (λ k. (k, conflict_event c a found)) c.listeners

none_called : {B : Type 0} (g : ℕ → B) (ks : List ℕ) → no_listeners ks ≡ true → map g ks ≡ []
none_called g [] h = refl
none_called g (k ∷ ks) h = absurd (cc (h))

module _ (hook : Option (ConflictEvent → HookResult)) where
  fired-fire :
      (c : Conflicts) (a : Arrival) (remote : PageIr) (found : Conflict)
      → (fire hook c a remote found).0.fired ≡ c.fired ++ calls c a found
  unfolding fire
  fired-fire c a remote found = elim (Bool-cases (no_ids found.node_ids)) [
    | inl t ↦ rw (t, fire) (sym (append-nil c.fired))
    | inr f ↦ rw (f, fire) refl
  ]

  fired-window :
      (d : Conflicts) (first : ℕ) (local remote : PageIr) (a : Arrival)
      → d.first_unconfirmed_at ≡ some first
      → d.last_local_ir ≡ some local
      → (maybe_fire hook d a remote).0.fired
        ≡ d.fired
          ++ (if ltb d.stale_after_ms (a.now - first)
              then []
              else calls d a (compute_conflict d.baseline_ir local remote))
  unfolding maybe_fire open_window
  fired-window d first local remote a p q =
      if-both (λ (x : Conflicts × Option PageIr). x.0.fired ≡ d.fired ++ wanted)
        (no_listeners d.listeners && not (is_some hook)) _ _
        (λ t. sym (ap (λ es. d.fired ++ es) (nothing (ground (arith, t))) ∙ append-nil d.fired))
        (λ f. elim (Bool-cases (ltb d.stale_after_ms (a.now - first))) [
          | inl t ↦ rw (p, t) (sym (append-nil d.fired))
          | inr n ↦
              rw (p, n, q) (fired-fire d a remote (compute_conflict d.baseline_ir local remote))
        ])
    where
      wanted : List (ℕ × ConflictEvent)
      wanted =
          if ltb d.stale_after_ms (a.now - first)
          then []
          else calls d a (compute_conflict d.baseline_ir local remote)

      nothing : no_listeners d.listeners ≡ true → wanted ≡ []
      nothing h = ground (
        arith,
        none_called {B = ℕ × ConflictEvent}
            (λ k. (k, conflict_event d a (compute_conflict d.baseline_ir local remote))) d.listeners
            h,
      )

  -- After a burst of saves on a closed window, a remote document fires exactly this: nothing
  -- when the first save is older than the bound, and else, for each listener, the overlap of
  -- the document before the burst, the last saved one and the remote one, if there is any.
  pub fired-maybe_fire :
      (c : Conflicts) (ir : PageIr) (first : ℕ) (es : List (PageIr × ℕ)) (a : Arrival)
      (remote : PageIr)
      → c.first_unconfirmed_at ≡ none
      → (maybe_fire hook (note_all c ((ir, first) ∷ es)) a remote).0.fired
        ≡ c.fired
          ++ (if ltb c.stale_after_ms (a.now - first)
              then []
              else calls c a (compute_conflict c.last_local_ir (last_saved ir es) remote))
  fired-maybe_fire c ir first es a remote h =
      ap (λ d. (maybe_fire hook d a remote).0.fired) (note_all-burst c ir first es h)
      ∙ fired-window (after_burst c first (last_saved ir es)) first (last_saved ir es) remote a refl
          refl
