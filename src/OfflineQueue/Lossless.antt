-- ===== src/OfflineQueue/Lossless.antt =====
-- No edit is lost before the backend is ready, given a merge that keeps what updates do.
use anvilkit_plugin_collab_y.Base.{
  ℕ, ◌≡◌, refl, ap, ◌∙◌, sym, Bool, true, false, Option, some, List, [], ◌∷◌, ◌++◌, ltb, length,
  arith, if-both,
}
use anvilkit_plugin_collab_y.OfflineQueue.{
  OfflineQueue, Call, appending, readied, compaction_start, compaction_end, teardown,
  create_offline_queue, compact, compacted, count_append, become_ready, shrink, push_pending,
  append, step, run,
}

-- A document after updates, `f` being `Y.applyUpdateV2`.
unfoldable pub apply_all : {Doc Update : Type 0} → (Doc → Update → Doc) → Doc → List Update → Doc
apply_all f d [] = d
apply_all f d (u ∷ us) = apply_all f (f d u) us

-- What yjs documents of `mergeUpdatesV2`: it succeeds, and its result does what the updates do.
pub record Merges {Doc Update : Type 0} (f : Doc → Update → Doc)
    (merge : List Update → Option Update) : Type 0 where
  pub merged : List Update → Update
  pub succeeds : (us : List Update) → merge us ≡ some (merged us)
  pub same_effect : (d : Doc) (us : List Update) → f d (merged us) ≡ apply_all f d us

module _ {Doc Update : Type 0} (f : Doc → Update → Doc) (merge : List Update → Option Update)
    (m : Merges f merge) where
  apply_all-append :
      (d : Doc) (us vs : List Update) → apply_all f d (us ++ vs) ≡ apply_all f (apply_all f d us) vs
  unfolding apply_all
  apply_all-append d [] vs = refl
  apply_all-append d (u ∷ us) vs = apply_all-append (f d u) us vs

  apply_all-shrink :
      (d : Doc) (us : List Update) → apply_all f d (shrink merge us) ≡ apply_all f d us
  unfolding shrink apply_all
  apply_all-shrink d us = rw (m.succeeds us, shrink) (m.same_effect d us)

  apply_all-push_pending :
      (d : Doc) (limit : ℕ) (us : List Update) (u : Update)
      → apply_all f d (push_pending merge limit us u) ≡ f (apply_all f d us) u
  unfolding push_pending shrink apply_all
  apply_all-push_pending d limit us u =
      if-both (λ xs. apply_all f d xs ≡ f (apply_all f d us) u)
        (ltb limit (length (us ++ (u ∷ [])))) _ _
        (λ t. apply_all-shrink d (us ++ (u ∷ [])) ∙ apply_all-append d us (u ∷ []))
        (λ g. apply_all-append d us (u ∷ []))

  -- The updates that a history appends.
  abbrev pub appended : List (Call Update) → List Update
  appended [] = []
  appended (appending u ∷ cs) = u ∷ appended cs
  appended (c ∷ cs) = appended cs

  abbrev pub torn_down : List (Call Update) → Bool
  torn_down [] = false
  torn_down (teardown ∷ cs) = true
  torn_down (c ∷ cs) = torn_down cs

  -- What the stored updates and then those in the buffer make of a document.
  abbrev pub effect : Doc → OfflineQueue Update → Doc
  effect d q = apply_all f (apply_all f d q.rows) q.pending_appends

  Flushed : OfflineQueue Update → Type 0
  Flushed q = q.ready ≡ true → q.pending_appends ≡ []

  count_append-effect :
      (d : Doc) (q : OfflineQueue Update)
      → (effect d (count_append q) ≡ effect d q) × (Flushed q → Flushed (count_append q))
  unfolding count_append compact Flushed
  count_append-effect d q = (ground arith, λ h r. ground (arith, h, r))

  append-effect :
      (d : Doc) (q : OfflineQueue Update) (u : Update)
      → Flushed q
      → (effect d (append merge q u) ≡ f (effect d q) u) × Flushed (append merge q u)
  unfolding append Flushed apply_all
  append-effect d q u h =
      if-both (λ x. (effect d x ≡ f (effect d q) u) × Flushed x) q.ready _ _
        (λ t.
          let stored = record q { rows = q.rows ++ (u ∷ []) } in
          (
            (count_append-effect d stored).0
                ∙ (ap (apply_all f (apply_all f d (q.rows ++ (u ∷ [])))) (h t)
                    ∙ (apply_all-append d q.rows (u ∷ [])
                        ∙ sym (ap (λ us. f (apply_all f (apply_all f d q.rows) us) u) (h t)))),
            (count_append-effect d stored).1 h,
          ))
        (λ g. (
          apply_all-push_pending (apply_all f d q.rows) q.max_pending_appends q.pending_appends u,
          λ r. absurd (cc (r, g)),
        ))

  run-effect :
      (d : Doc) (cs : List (Call Update)) (q : OfflineQueue Update)
      → torn_down cs ≡ false
      → Flushed q
      → effect d (run merge q cs) ≡ apply_all f (effect d q) (appended cs)
  unfolding run step become_ready compacted compact Flushed apply_all
  run-effect d [] q h w = refl
  run-effect d (appending u ∷ cs) q h w =
      run-effect d cs (append merge q u) h (append-effect d q u w).1
      ∙ ap (λ e. apply_all f e (appended cs)) (append-effect d q u w).0
  run-effect d (readied ∷ cs) q h w =
      run-effect d cs (become_ready q) h (λ r. refl)
      ∙ ap (λ e. apply_all f e (appended cs)) (apply_all-append d q.rows q.pending_appends)
  run-effect d (compaction_start ∷ cs) q h w =
      run-effect d cs (compact q) h (λ r. ground (arith, w, r))
      ∙ ap (λ e. apply_all f e (appended cs)) (ground arith)
  run-effect d (compaction_end ∷ cs) q h w = run-effect d cs (compacted q) h w
  run-effect d (teardown ∷ cs) q h w = absurd (cc (h))

  -- With a merge as yjs documents it, after any history without a destroy on a new queue, the
  -- updates that the backend was given and then those in the buffer make of a document what the
  -- appended updates make of it, whenever the backend gets ready and however often the buffer
  -- overflows.
  pub apply_all-appended :
      (d : Doc) (ready : Bool) (every : Option ℕ) (limit : ℕ) (cs : List (Call Update))
      → torn_down cs ≡ false
      → effect d (run merge (create_offline_queue ready every limit) cs)
        ≡ apply_all f d (appended cs)
  unfolding create_offline_queue Flushed apply_all
  apply_all-appended d ready every limit cs h =
      run-effect d cs (create_offline_queue ready every limit) h (λ r. refl)
