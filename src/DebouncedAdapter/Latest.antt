-- ===== src/DebouncedAdapter/Latest.antt =====
-- What a burst of saves writes, and that a pending save always has a timer.
use anvilkit_plugin_collab_y.Base.{
  ℕ, ◌+◌, ◌≡◌, refl, ap, ap₂, ◌∙◌, sym, true, false, Option, none, some, List, [], ◌∷◌, ◌++◌, arith,
  if-both, is_some, length, subst,
}
use anvilkit_plugin_collab_y.DebouncedAdapter.{
  Upstream, throws, promises, PendingSave, Debouncer, Event, saving, tick, answers, teardown,
  create_debounced_adapter, join, save, write, flush, answer, destroy, step, run,
}

-- The last of a burst that starts with `u`.
unfoldable pub last_save : {A : Type 0} → A → List A → A
last_save u [] = u
last_save u (v ∷ us) = last_save v us

module _ {Doc Meta : Type 0} where
  join-latest :
      (o : Option (PendingSave Doc Meta)) (u : Doc × Meta) (n : ℕ)
      → ((join o u.0 u.1 n).ir, (join o u.0 u.1 n).meta) ≡ u
  unfolding join
  join-latest none u n = refl
  join-latest (some p) u n = refl

module _ {Doc Meta SnapshotId Reason : Type 0} where
  -- A timer runs exactly when a save is pending, and none is pending after a destroy.
  record Armed (d : Debouncer Doc Meta SnapshotId Reason) : Type 0 where
    armed : is_some d.pending ≡ d.timer
    quiet : d.destroyed ≡ true → d.timer ≡ false

  flush-Armed :
      (d : Debouncer Doc Meta SnapshotId Reason) (upstream : Upstream Reason)
      → Armed d
      → Armed (flush d upstream)
  unfolding flush write
  flush-Armed d (throws reason) a = record {
    armed = ground (arith, a.armed);
    quiet = λ h. ground (arith, a.quiet, a.armed);
  }
  flush-Armed d promises a = record {
    armed = ground (arith, a.armed);
    quiet = λ h. ground (arith, a.quiet, a.armed);
  }

  step-Armed :
      (d : Debouncer Doc Meta SnapshotId Reason) (c : Event Doc Meta SnapshotId Reason)
      → Armed d
      → Armed (step d c)
  unfolding step save answer destroy
  step-Armed d (saving ir meta) a = record {
    armed = ground (arith, a.armed);
    quiet = λ h. ground (arith, a.quiet);
  }
  step-Armed d (tick upstream) a =
      if-both Armed d.timer _ _ (λ t. flush-Armed d upstream a) (λ f. a)
  step-Armed d (answers w outcome) a = record {
    armed = ground (arith, a.armed);
    quiet = λ h. ground (arith, a.quiet);
  }
  step-Armed d teardown a = record {
    armed = ground (arith, a.armed);
    quiet = λ h. ground (arith, a.quiet);
  }

  run-Armed :
      (cs : List (Event Doc Meta SnapshotId Reason)) (d : Debouncer Doc Meta SnapshotId Reason)
      → Armed d
      → Armed (run d cs)
  unfolding run
  run-Armed [] d a = a
  run-Armed (c ∷ cs) d a = run-Armed cs (step d c) (step-Armed d c a)

  created-Armed : Armed create_debounced_adapter
  unfolding create_debounced_adapter
  created-Armed = record { armed = refl; quiet = λ h. refl }

  -- After any history on a new adapter a timer runs exactly when a save is pending, and after a
  -- destroy neither is there.
  pub timer_iff_pending :
      (cs : List (Event Doc Meta SnapshotId Reason))
      → let d = run create_debounced_adapter cs in
        (is_some d.pending ≡ d.timer) × (d.destroyed ≡ true → d.timer ≡ false)
  timer_iff_pending cs =
      let a = run-Armed cs create_debounced_adapter created-Armed in (a.armed, a.quiet)

  -- Saves one after another.
  abbrev pub saves : List (Doc × Meta) → List (Event Doc Meta SnapshotId Reason)
  saves [] = []
  saves ((ir, meta) ∷ us) = saving ir meta ∷ saves us

  record Buffered (d : Debouncer Doc Meta SnapshotId Reason) (u : Doc × Meta)
      (us : List (Doc × Meta)) (e : Debouncer Doc Meta SnapshotId Reason) : Type 0 where
    held : PendingSave Doc Meta
    is_held : e.pending ≡ some held
    is_last : (held.ir, held.meta) ≡ last_save u us
    ticking : e.timer ≡ true
    same_written : e.written ≡ d.written
    same_writes : e.transport_writes ≡ d.transport_writes
    calls : e.save_calls ≡ d.save_calls + length (u ∷ us)

  -- A save on an adapter in use, in full.
  saved : Debouncer Doc Meta SnapshotId Reason → Doc × Meta → Debouncer Doc Meta SnapshotId Reason
  saved d u = record d {
    save_calls = d.save_calls + 1;
    issued = d.issued + 1;
    pending = some (join d.pending u.0 u.1 d.issued);
    timer = true;
  }

  save_alive :
      (d : Debouncer Doc Meta SnapshotId Reason) (u : Doc × Meta)
      → d.destroyed ≡ false
      → save d u.0 u.1 ≡ saved d u
  unfolding save saved
  save_alive d u h =
      if-both (λ x. x ≡ saved d u) d.destroyed _ _ (λ t. absurd (cc (t, h))) (λ f. refl)

  run-saves :
      (us : List (Doc × Meta)) (d : Debouncer Doc Meta SnapshotId Reason) (u : Doc × Meta)
      → d.destroyed ≡ false
      → Buffered d u us (run d (saves (u ∷ us)))
  unfolding run step saved last_save
  run-saves [] d u h = subst (Buffered d u []) (sym (save_alive d u h)) (record {
    held = join d.pending u.0 u.1 d.issued;
    is_held = refl;
    is_last = join-latest d.pending u d.issued;
    ticking = refl;
    same_written = refl;
    same_writes = refl;
    calls = omega arith;
  })
  run-saves (v ∷ us) d u h =
      subst (λ x. Buffered d u (v ∷ us) (run x (saves (v ∷ us)))) (sym (save_alive d u h))
        (let b = run-saves us (saved d u) v h in
          record {
            held = b.held;
            is_held = b.is_held;
            is_last = b.is_last;
            ticking = b.ticking;
            same_written = b.same_written;
            same_writes = b.same_writes;
            calls = omega (arith, b.calls);
          })

  tick_pending :
      (e : Debouncer Doc Meta SnapshotId Reason) (p : PendingSave Doc Meta)
      (upstream : Upstream Reason)
      → e.timer ≡ true
      → e.pending ≡ some p
      → let f = step e (tick upstream) in
        (f.written ≡ e.written ++ ((p.ir, p.meta) ∷ []))
        × (f.transport_writes ≡ e.transport_writes + 1)
        × (f.save_calls ≡ e.save_calls)
        × (f.pending ≡ none)
  unfolding step flush write
  tick_pending e p (throws reason) t g = ground (arith, t, g)
  tick_pending e p promises t g = ground (arith, t, g)

  -- On an adapter that was not destroyed, saves one after another and then the end of the quiet
  -- window are one write, of the last of them, whatever was pending before and whether the
  -- upstream adapter throws or not; all the saves are counted, and no save is pending.
  pub latest_wins :
      (d : Debouncer Doc Meta SnapshotId Reason) (u : Doc × Meta) (us : List (Doc × Meta))
      (upstream : Upstream Reason)
      → d.destroyed ≡ false
      → let e = step (run d (saves (u ∷ us))) (tick upstream) in
        (e.written ≡ d.written ++ (last_save u us ∷ []))
        × (e.transport_writes ≡ d.transport_writes + 1)
        × (e.save_calls ≡ d.save_calls + length (u ∷ us))
        × (e.pending ≡ none)
  latest_wins d u us upstream h =
      let b = run-saves us d u h in
      let t = tick_pending (run d (saves (u ∷ us))) b.held upstream b.ticking b.is_held in
      (
        t.0 ∙ ap₂ (λ xs x. xs ++ (x ∷ [])) b.same_written b.is_last,
        t.1 ∙ ap (λ n. n + 1) b.same_writes,
        t.2 ∙ b.calls,
        t.3,
      )
