-- ===== src/OfflineQueue/Bounds.antt =====
-- The buffer is bounded.
use anvilkit_plugin_collab_y.Base.{
  ℕ, zero, suc, take, length-take-drop, ◌+◌, ◌/◌, ◌≤◌, ◌≡◌, Bool, Option, List, [], ◌∷◌, ◌++◌,
  length, drop, arith, length-append, Option-cases, if-both, inl, inr,
}
use anvilkit_plugin_collab_y.OfflineQueue.{
  OfflineQueue, Call, appending, readied, compaction_start, compaction_end, teardown,
  create_offline_queue, compact, compacted, count_append, become_ready, destroy, shrink,
  push_pending, append, step, run,
}

length-drop :
    {A : Type 0} (n : ℕ) (xs : List A) → n ≤ length xs → length (drop n xs) + n ≡ length xs
length-drop n xs h = omega (arith, length-take-drop n xs, take_all n xs h)
  where
    take_all : {A : Type 0} (n : ℕ) (xs : List A) → n ≤ length xs → length (take n xs) ≡ n
    take_all zero xs h = omega arith
    take_all (suc n) [] h = omega (arith, h)
    take_all (suc n) (x ∷ xs) h = omega (arith, take_all n xs (omega (arith, h)))

module _ {Update : Type 0} (merge : List Update → Option Update) where
  length-shrink :
      (limit : ℕ) (us : List Update)
      → 1 ≤ limit
      → limit + 1 ≡ length us
      → length (shrink merge us) ≤ limit
  unfolding shrink
  length-shrink limit us h k = elim (Option-cases (merge us)) [
    | inl g ↦ rw (g, shrink) (omega (arith, h, k, length-drop (length us / 2) us (omega arith)))
    | inr (m, g) ↦ rw (g, shrink) h
  ]

  length-push_pending :
      (limit : ℕ) (us : List Update) (u : Update)
      → 1 ≤ limit
      → length us ≤ limit
      → length (push_pending merge limit us u) ≤ limit
  unfolding push_pending
  length-push_pending limit us u h k =
      ground (arith, h, k, length-append us (u ∷ []), length-shrink limit (us ++ (u ∷ [])))

  record Bounded (q : OfflineQueue Update) : Type 0 where
    positive : 1 ≤ q.max_pending_appends
    bounded : length q.pending_appends ≤ q.max_pending_appends

  count_append-Bounded : (q : OfflineQueue Update) → Bounded q → Bounded (count_append q)
  unfolding count_append compact
  count_append-Bounded q b = record {
    positive = ground (arith, b.positive);
    bounded = ground (arith, b.bounded);
  }

  append-Bounded : (q : OfflineQueue Update) (u : Update) → Bounded q → Bounded (append merge q u)
  unfolding append
  append-Bounded q u b =
      if-both Bounded q.ready _ _
        (λ t. count_append-Bounded _ (record { positive = b.positive; bounded = b.bounded }))
        (λ f. record {
          positive = b.positive;
          bounded =
              length-push_pending q.max_pending_appends q.pending_appends u b.positive b.bounded;
        })

  step-Bounded : (q : OfflineQueue Update) (c : Call Update) → Bounded q → Bounded (step merge q c)
  unfolding step compact compacted become_ready destroy
  step-Bounded q (appending u) b = append-Bounded q u b
  step-Bounded q readied b = record { positive = b.positive; bounded = omega arith }
  step-Bounded q compaction_start b = record {
    positive = ground (arith, b.positive);
    bounded = ground (arith, b.bounded);
  }
  step-Bounded q compaction_end b = record { positive = b.positive; bounded = b.bounded }
  step-Bounded q teardown b = record { positive = b.positive; bounded = omega arith }

  run-Bounded :
      (cs : List (Call Update)) (q : OfflineQueue Update) → Bounded q → Bounded (run merge q cs)
  unfolding run
  run-Bounded [] q b = b
  run-Bounded (c ∷ cs) q b = run-Bounded cs (step merge q c) (step-Bounded q c b)

  -- After any history on a new queue the buffer holds at most the configured number of updates,
  -- and at least one is allowed, whether the merge function throws or not.
  pub length-pending_appends :
      (ready : Bool) (every : Option ℕ) (limit : ℕ) (cs : List (Call Update))
      → let q = run merge (create_offline_queue ready every limit) cs in
        length q.pending_appends ≤ q.max_pending_appends
  unfolding create_offline_queue
  length-pending_appends ready every limit cs =
      (run-Bounded cs (create_offline_queue ready every limit)
        (record { positive = omega arith; bounded = omega arith })).bounded
