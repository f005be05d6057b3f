-- ===== src/DebouncedAdapter/Promises.antt =====
-- Every promise that `save` returned waits in one place until it is settled, once.
use anvilkit_plugin_collab_y.Base.{
  ℕ, suc, ◌+◌, ◌≡◌, refl, ap, ◌∙◌, true, false, Option, none, some, List, [], ◌∷◌, ◌++◌, nat_eq,
  ltb, if◌then◌else◌, ◌==◌, arith, Option-cases, if-both, inl, inr, ◌≤◌, beq-cases, subst, sym,
}
use anvilkit_plugin_collab_y.Base.Dict.{
  Dict, get, put, del, keys, has, mem-keys, get-put, get-del, put-Distinct, del_absent,
  del-Distinct,
}
use anvilkit_plugin_collab_y.Base.IdSet.{Distinct}
use anvilkit_plugin_collab_y.DebouncedAdapter.{
  Outcome, resolved, rejected, destroyed_error, Upstream, throws, promises, PendingSave, Debouncer,
  Event, saving, tick, answers, teardown, create_debounced_adapter, settle_all, join, save, write,
  flush, answered, answer, reject_pending, destroy, step, run,
}

-- How often a number stands in a list.
unfoldable pub count : ℕ → List ℕ → ℕ
count k [] = 0
count k (x ∷ xs) = if x == k then suc (count k xs) else count k xs

count-append : (k : ℕ) (xs ys : List ℕ) → count k (xs ++ ys) ≡ count k xs + count k ys
unfolding count
count-append k [] ys = omega arith
count-append k (x ∷ xs) ys = ground (arith, count-append k xs ys)

-- How often a number stands first in a list of pairs.
unfoldable pub count_first : {A : Type 0} → ℕ → List (ℕ × A) → ℕ
count_first k [] = 0
count_first k ((j, o) ∷ xs) = if j == k then suc (count_first k xs) else count_first k xs

count_first-append :
    {A : Type 0} (k : ℕ) (xs ys : List (ℕ × A))
    → count_first k (xs ++ ys) ≡ count_first k xs + count_first k ys
unfolding count_first
count_first-append k [] ys = omega arith
count_first-append k ((j, o) ∷ xs) ys = ground (arith, count_first-append k xs ys)

count_first-settle_all :
    {SnapshotId Reason : Type 0} (k : ℕ) (o : Outcome SnapshotId Reason) (xs : List ℕ)
    → count_first k (settle_all o xs) ≡ count k xs
unfolding count_first count
count_first-settle_all k o [] = refl
count_first-settle_all k o (x ∷ xs) = ground (arith, count_first-settle_all k o xs)

module _ {Doc Meta : Type 0} where
  -- A promise among the callers of a pending save, and of the writes in flight.
  abbrev pub count_pending : ℕ → Option (PendingSave Doc Meta) → ℕ
  count_pending k none = 0
  count_pending k (some p) = count k p.rejecters

  unfoldable pub count_flights : ℕ → List (ℕ × PendingSave Doc Meta) → ℕ
  count_flights k [] = 0
  count_flights k ((w, p) ∷ m) = count k p.rejecters + count_flights k m

  count_flights-put :
      (k w : ℕ) (p : PendingSave Doc Meta) (m : Dict ℕ (PendingSave Doc Meta))
      → has w m ≡ false
      → count_flights k (put w p m) ≡ count_flights k m + count k p.rejecters
  unfolding count_flights put get
  count_flights-put k w p [] h = omega arith
  count_flights-put k w p ((j, q) ∷ m) h = ground (arith, count_flights-put k w p m)

  count_flights-del :
      (k w : ℕ) (p : PendingSave Doc Meta) (m : Dict ℕ (PendingSave Doc Meta))
      → Distinct (keys m)
      → get w m ≡ some p
      → count_flights k (del w m) + count k p.rejecters ≡ count_flights k m
  unfolding count_flights del get
  count_flights-del k w p [] d h = absurd (cc)
  count_flights-del k w p ((j, q) ∷ m) d h = elim (beq-cases j w) [
    | inl (t, e) ↦ ground (arith, ap (λ i. get i m) e, del_absent w m, mem-keys j m, d.0, t)
    | inr (f, e) ↦ ground (arith, count_flights-del k w p m d.1, f)
  ]

count-reject_pending :
    {Doc Meta : Type 0} (SnapshotId Reason : Type 0) (k : ℕ) (o : Option (PendingSave Doc Meta))
    → count_first k (reject_pending {SnapshotId = SnapshotId} {Reason = Reason} o)
      ≡ count_pending k o
unfolding count_first
count-reject_pending SnapshotId Reason k none = refl
count-reject_pending SnapshotId Reason k (some p) =
    count_first-settle_all {SnapshotId = SnapshotId} {Reason = Reason} k destroyed_error p.rejecters

-- The two lists of callbacks belong to the same promises.
Twin : {Doc Meta : Type 0} → PendingSave Doc Meta → Type 0
Twin p = p.resolvers ≡ p.rejecters

abbrev Twins : {Doc Meta : Type 0} → Option (PendingSave Doc Meta) → Type 0
Twins none = Unit
Twins (some p) = Twin p

module _ {Doc Meta : Type 0} where
  count-join :
      (k : ℕ) (o : Option (PendingSave Doc Meta)) (ir : Doc) (meta : Meta) (n : ℕ)
      → count_pending k (some (join o ir meta n)) ≡ count_pending k o + (if n == k then 1 else 0)
  unfolding join count
  count-join k none ir meta n = ground arith
  count-join k (some p) ir meta n = ground (arith, count-append k p.rejecters (n ∷ []))

  join-Twin :
      (o : Option (PendingSave Doc Meta)) (ir : Doc) (meta : Meta) (n : ℕ)
      → Twins o
      → Twin (join o ir meta n)
  unfolding join Twin
  join-Twin none ir meta n h = refl
  join-Twin (some p) ir meta n h = ap (λ xs. xs ++ (n ∷ [])) h

module _ {Doc Meta SnapshotId Reason : Type 0} where
  abbrev pub places : ℕ → Debouncer Doc Meta SnapshotId Reason → ℕ
  places k d = count_first k d.settled + count_flights k d.in_flight + count_pending k d.pending

  record Inv (d : Debouncer Doc Meta SnapshotId Reason) : Type 0 where
    tally : (k : ℕ) → places k d ≡ (if ltb k d.issued then 1 else 0)
    pending_twin : Twins d.pending
    flight_twin : (w : ℕ) → Twins (get w d.in_flight)
    numbered : (w : ℕ) → has w d.in_flight ≡ true → w ≤ d.transport_writes
    one_flight : Distinct (keys d.in_flight)

  save-Inv :
      (d : Debouncer Doc Meta SnapshotId Reason) (ir : Doc) (meta : Meta)
      → Inv d
      → Inv (save d ir meta)
  unfolding save count_first
  save-Inv d ir meta i =
      if-both Inv d.destroyed _ _
        (λ t. record {
          tally = λ k.
              ground (
                arith,
                i.tally k,
                count_first-append k d.settled ((d.issued, destroyed_error) ∷ []),
              );
          pending_twin = i.pending_twin;
          flight_twin = i.flight_twin;
          numbered = i.numbered;
          one_flight = i.one_flight;
        })
        (λ f. record {
          tally = λ k. ground (arith, i.tally k, count-join k d.pending ir meta d.issued);
          pending_twin = join-Twin d.pending ir meta d.issued i.pending_twin;
          flight_twin = i.flight_twin;
          numbered = i.numbered;
          one_flight = i.one_flight;
        })

  -- A flush by what the upstream adapter does, `p` being the pending save.
  flush_some-Inv :
      (d : Debouncer Doc Meta SnapshotId Reason) (p : PendingSave Doc Meta)
      (upstream : Upstream Reason)
      → d.pending ≡ some p
      → Inv d
      → Inv (
          write
            (record d {
              pending = none;
              timer = false;
              transport_writes = d.transport_writes + 1;
              written = d.written ++ ((p.ir, p.meta) ∷ []);
            })
            p
            upstream)
  unfolding write
  flush_some-Inv d p (throws reason) g i = record {
    tally = λ k. ground (
      arith,
      i.tally k,
      ap (count_pending k) g,
      count_first-append k d.settled (settle_all (rejected reason) p.rejecters),
      count_first-settle_all {SnapshotId = SnapshotId} k (rejected reason) p.rejecters,
    );
    pending_twin = tt;
    flight_twin = i.flight_twin;
    numbered = λ w h. omega (arith, i.numbered w h);
    one_flight = i.one_flight;
  }
  flush_some-Inv d p promises g i = record {
    tally = λ k. ground (
      arith,
      i.tally k,
      ap (count_pending k) g,
      count_flights-put k (d.transport_writes + 1) p d.in_flight unused,
    );
    pending_twin = tt;
    flight_twin = λ w. subst Twins (sym (get-put w (d.transport_writes + 1) p d.in_flight)) (
        if-both Twins ((d.transport_writes + 1) == w) _ _ (λ t. subst Twins g i.pending_twin)
          (λ f. i.flight_twin w));
    numbered = λ w. ground (arith, i.numbered w, get-put w (d.transport_writes + 1) p d.in_flight);
    one_flight = put-Distinct (d.transport_writes + 1) p d.in_flight i.one_flight;
  }
    where
      unused : has (d.transport_writes + 1) d.in_flight ≡ false
      unused = ground (arith, i.numbered (d.transport_writes + 1))

  flush-Inv :
      (d : Debouncer Doc Meta SnapshotId Reason) (upstream : Upstream Reason)
      → Inv d
      → Inv (flush d upstream)
  unfolding flush
  flush-Inv d upstream i = elim (Option-cases d.pending) [
    | inl g ↦ rw (g, flush) i
    | inr (p, g) ↦ rw (g, flush) (flush_some-Inv d p upstream g i)
  ]

  count-answered :
      (k : ℕ) (p : PendingSave Doc Meta) (o : Outcome SnapshotId Reason)
      → Twin p
      → count_first k (answered p o) ≡ count k p.rejecters
  unfolding Twin
  count-answered k p (resolved id) t =
      count_first-settle_all {Reason = Reason} k (resolved id) p.resolvers ∙ ap (count k) t
  count-answered k p (rejected reason) t =
      count_first-settle_all {SnapshotId = SnapshotId} k (rejected reason) p.rejecters
  count-answered k p destroyed_error t =
      count_first-settle_all {SnapshotId = SnapshotId} {Reason = Reason} k destroyed_error
        p.rejecters

  answer-Inv :
      (d : Debouncer Doc Meta SnapshotId Reason) (w : ℕ) (o : Outcome SnapshotId Reason)
      → Inv d
      → Inv (answer d w o)
  unfolding answer
  answer-Inv d w o i = elim (Option-cases (get w d.in_flight)) [
    | inl g ↦ rw (g, answer) i
    | inr (p, g) ↦
        rw (g, answer)
          (record {
            tally = λ k. omega (
              arith,
              i.tally k,
              count_flights-del k w p d.in_flight i.one_flight g,
              count_first-append k d.settled (answered p o),
              count-answered k p o (subst Twins g (i.flight_twin w)),
            );
            pending_twin = i.pending_twin;
            flight_twin = λ v.
                subst Twins (sym (get-del v w d.in_flight))
                  (if-both Twins (w == v) _ _ (λ t. tt) (λ f. i.flight_twin v));
            numbered = λ v. ground (arith, i.numbered v, get-del v w d.in_flight);
            one_flight = del-Distinct w d.in_flight i.one_flight;
          })
  ]

  destroy-Inv : (d : Debouncer Doc Meta SnapshotId Reason) → Inv d → Inv (destroy d)
  unfolding destroy
  destroy-Inv d i =
      if-both Inv d.destroyed _ _ (λ t. i)
        (λ f. record {
          tally = λ k. omega (
            arith,
            i.tally k,
            count_first-append k d.settled (reject_pending d.pending),
            count-reject_pending SnapshotId Reason k d.pending,
          );
          pending_twin = tt;
          flight_twin = i.flight_twin;
          numbered = i.numbered;
          one_flight = i.one_flight;
        })

  step-Inv :
      (d : Debouncer Doc Meta SnapshotId Reason) (c : Event Doc Meta SnapshotId Reason)
      → Inv d
      → Inv (step d c)
  unfolding step
  step-Inv d (saving ir meta) i = save-Inv d ir meta i
  step-Inv d (tick upstream) i = if-both Inv d.timer _ _ (λ t. flush-Inv d upstream i) (λ f. i)
  step-Inv d (answers w outcome) i = answer-Inv d w outcome i
  step-Inv d teardown i = destroy-Inv d i

  run-Inv :
      (cs : List (Event Doc Meta SnapshotId Reason)) (d : Debouncer Doc Meta SnapshotId Reason)
      → Inv d
      → Inv (run d cs)
  unfolding run
  run-Inv [] d i = i
  run-Inv (c ∷ cs) d i = run-Inv cs (step d c) (step-Inv d c i)

  created-Inv : Inv create_debounced_adapter
  unfolding create_debounced_adapter count_first count_flights get
  created-Inv = record {
    tally = λ k. ground arith;
    pending_twin = tt;
    flight_twin = λ w. tt;
    numbered = λ w h. absurd (cc);
    one_flight = tt;
  }

  -- After any history on a new adapter, a promise that `save` returned is in exactly one place,
  -- once: settled, in a write in flight, or among the callers of the pending save. A promise
  -- that was not returned is in none.
  pub settled_once :
      (cs : List (Event Doc Meta SnapshotId Reason)) (k : ℕ)
      → let d = run create_debounced_adapter cs in places k d ≡ (if ltb k d.issued then 1 else 0)
  settled_once cs k = (run-Inv cs create_debounced_adapter created-Inv).tally k
