-- ===== src/InboundScheduler/Count.antt =====
-- Every update that was accepted is accounted for.
use anvilkit_plugin_collab_y.Base.{
  ℕ, suc, ◌+◌, ◌≡◌, refl, ap, Bool, true, false, none, some, List, [], ◌∷◌, ◌++◌, String, string_eq,
  length, length-append, if◌then◌else◌, arith, Option-cases, inl, inr, is_some, beq-cases, if-both,
  subst, ◌||◌,
}
use anvilkit_plugin_collab_y.Base.Dict.{
  Dict, get, put, del, keys, put-Distinct, mem-keys, del_absent, del-Distinct,
}
use anvilkit_plugin_collab_y.Base.IdSet.{Distinct}
use anvilkit_plugin_collab_y.InboundScheduler.{
  Update, Scheduler, fresh_entry, supersede, Delivery, Call, arrive, frame, force, teardown,
  enqueue, enqueue_all, buffer, ensure_scheduled, drain_room, drain_rooms, on_frame, flush_now,
  step, run, delivery, create_inbound_scheduler,
}

-- The sizes of a map after a write and after a removal.
module _ {V : Type 0} where
  length-put :
      (k : String) (v : V) (m : Dict String V)
      → length (put k v m) ≡ length m + (if is_some (get k m) then 0 else 1)
  unfolding put get
  length-put k v [] = refl
  length-put k v ((j, w) ∷ m) = ground (arith, length-put k v m)

  length-del :
      (k : String) (v : V) (m : Dict String V)
      → Distinct (keys m)
      → get k m ≡ some v
      → length (del k m) + 1 ≡ length m
  unfolding del get
  length-del k v [] d h = absurd (cc)
  length-del k v ((j, w) ∷ m) d h = elim (beq-cases j k) [
    | inl (t, q) ↦ ground (arith, ap (λ i. get i m) q, del_absent k m, mem-keys j m, d.0, t)
    | inr (f, q) ↦ ground (arith, length-del k v m d.1, f)
  ]

module _ {Doc Peer : Type 0} where
  -- How many updates a history brings from outside.
  unfoldable pub arrivals : List (Call Doc Peer) → ℕ
  arrivals [] = 0
  arrivals (arrive u ∷ cs) = suc (arrivals cs)
  arrivals (c ∷ cs) = arrivals cs

  unfoldable pub torn_down : List (Call Doc Peer) → Bool
  torn_down [] = false
  torn_down (teardown ∷ cs) = true
  torn_down (c ∷ cs) = torn_down cs

module _ {Doc Peer : Type 0} (reentry : Delivery Doc Peer → List (Update Doc Peer)) where
  -- How many updates the calls of `flush` enqueued.
  unfoldable pub reentered : List (Delivery Doc Peer) → ℕ
  reentered [] = 0
  reentered (d ∷ ds) = length (reentry d) + reentered ds

  -- A scheduler in use that has to account for `n` updates from outside and for those that
  -- `flush` enqueued, and is still to be given `due` of them.
  record Balanced (n due : ℕ) (s : Scheduler Doc Peer) : Type 0 where
    alive : s.destroyed ≡ false
    one_entry : Distinct (keys s.buffers)
    total : length s.delivered + s.coalesced + length s.buffers + due ≡ n + reentered s.delivered

  reentered-append :
      (d : Delivery Doc Peer) (ds : List (Delivery Doc Peer))
      → reentered (ds ++ (d ∷ [])) ≡ reentered ds + length (reentry d)
  unfolding reentered
  reentered-append d [] = omega arith
  reentered-append d (x ∷ ds) = omega (arith, reentered-append d ds)

  buffer-Balanced :
      (n k : ℕ) (s : Scheduler Doc Peer) (u : Update Doc Peer)
      → Balanced n (suc k) s
      → Balanced n k (buffer s u)
  unfolding buffer
  buffer-Balanced n k s u b = elim (Option-cases (get u.room_key s.buffers)) [
    | inl g ↦
        rw (g, buffer)
          (record {
            alive = b.alive;
            one_entry = put-Distinct u.room_key _ s.buffers b.one_entry;
            total = ground (arith, b.total, length-put u.room_key (fresh_entry u) s.buffers, g);
          })
    | inr (e, g) ↦
        rw (g, buffer)
          (record {
            alive = b.alive;
            one_entry = put-Distinct u.room_key _ s.buffers b.one_entry;
            total = ground (arith, b.total, length-put u.room_key (supersede e u) s.buffers, g);
          })
  ]

  ensure_scheduled-Balanced :
      (n k : ℕ) (s : Scheduler Doc Peer) → Balanced n k s → Balanced n k (ensure_scheduled s)
  unfolding ensure_scheduled
  ensure_scheduled-Balanced n k s b =
      if-both (Balanced n k) (s.scheduled || s.destroyed) _ _ (λ y. b)
        (λ y. record { alive = b.alive; one_entry = b.one_entry; total = b.total })

  enqueue-Balanced :
      (n k : ℕ) (s : Scheduler Doc Peer) (u : Update Doc Peer)
      → Balanced n (suc k) s
      → Balanced n k (enqueue s u)
  unfolding enqueue
  enqueue-Balanced n k s u b =
      if-both (Balanced n k) s.destroyed _ _ (λ t. absurd (cc (t, b.alive)))
        (λ f. ensure_scheduled-Balanced n k (buffer s u) (buffer-Balanced n k s u b))

  enqueue_all-Balanced :
      (us : List (Update Doc Peer)) (n : ℕ) (s : Scheduler Doc Peer)
      → Balanced n (length us) s
      → Balanced n 0 (enqueue_all s us)
  unfolding enqueue_all
  enqueue_all-Balanced [] n s b = b
  enqueue_all-Balanced (u ∷ us) n s b =
      enqueue_all-Balanced us n (enqueue s u) (enqueue-Balanced n (length us) s u b)

  drain_room-Balanced :
      (n : ℕ) (s : Scheduler Doc Peer) (room : String) (now : ℕ)
      → Balanced n 0 s
      → Balanced n 0 (drain_room reentry s room now)
  unfolding drain_room
  drain_room-Balanced n s room now b = elim (Option-cases (get room s.buffers)) [
    | inl g ↦ rw (g, drain_room) b
    | inr (e, g) ↦
        rw (g, drain_room)
          (enqueue_all-Balanced (reentry (delivery room e now)) n _ (record {
            alive = b.alive;
            one_entry = del-Distinct room s.buffers b.one_entry;
            total = omega (
              arith,
              b.total,
              length-del room e s.buffers b.one_entry g,
              reentered-append (delivery room e now) s.delivered,
              length-append s.delivered (delivery room e now ∷ []),
            );
          }))
  ]

  drain_rooms-Balanced :
      (rooms : List String) (n : ℕ) (s : Scheduler Doc Peer) (now : ℕ)
      → Balanced n 0 s
      → Balanced n 0 (drain_rooms reentry s rooms now)
  unfolding drain_rooms
  drain_rooms-Balanced [] n s now b = b
  drain_rooms-Balanced (room ∷ rooms) n s now b =
      drain_rooms-Balanced rooms n (drain_room reentry s room now) now
        (drain_room-Balanced n s room now b)

  on_frame-Balanced :
      (n : ℕ) (s : Scheduler Doc Peer) (now : ℕ)
      → Balanced n 0 s
      → Balanced n 0 (on_frame reentry s now)
  unfolding on_frame
  on_frame-Balanced n s now b =
      if-both (Balanced n 0) s.destroyed _ _ (λ t. absurd (cc (t, b.alive)))
        (λ f.
          drain_rooms-Balanced (keys s.buffers) n _ now
            (record { alive = b.alive; one_entry = b.one_entry; total = b.total }))

  arrive-Balanced :
      (n : ℕ) (s : Scheduler Doc Peer) (u : Update Doc Peer)
      → Balanced n 0 s
      → Balanced (suc n) 0 (enqueue s u)
  arrive-Balanced n s u b =
      enqueue-Balanced (suc n) 0 s u
        (record { alive = b.alive; one_entry = b.one_entry; total = omega (arith, b.total) })

  run-Balanced :
      (cs : List (Call Doc Peer)) (n : ℕ) (s : Scheduler Doc Peer)
      → torn_down cs ≡ false
      → Balanced n 0 s
      → Balanced (n + arrivals cs) 0 (run reentry s cs)
  unfolding run step flush_now arrivals torn_down
  run-Balanced [] n s h b = subst (λ k. Balanced k 0 s) (omega arith) b
  run-Balanced (arrive u ∷ cs) n s h b =
      subst (λ k. Balanced k 0 (run reentry (enqueue s u) cs)) (omega arith)
        (run-Balanced cs (suc n) (enqueue s u) h (arrive-Balanced n s u b))
  run-Balanced (frame now ∷ cs) n s h b =
      run-Balanced cs n (on_frame reentry s now) h (on_frame-Balanced n s now b)
  run-Balanced (force none now ∷ cs) n s h b =
      run-Balanced cs n _ h (drain_rooms-Balanced (keys s.buffers) n s now b)
  run-Balanced (force (some room) now ∷ cs) n s h b =
      run-Balanced cs n _ h (drain_room-Balanced n s room now b)
  run-Balanced (teardown ∷ cs) n s h b = absurd (cc)

  created-Balanced : Balanced 0 0 create_inbound_scheduler
  unfolding create_inbound_scheduler reentered
  created-Balanced = record { alive = refl; one_entry = tt; total = refl }

  -- After a history without a destroy on a new scheduler, the updates that it brought and those
  -- that calls of `flush` enqueued are as many as those flushed, those counted as coalesced and
  -- those in the buffer together.
  pub delivered-coalesced :
      (cs : List (Call Doc Peer))
      → torn_down cs ≡ false
      → let s = run reentry create_inbound_scheduler cs in
        length s.delivered + s.coalesced + length s.buffers ≡ arrivals cs + reentered s.delivered
  delivered-coalesced cs h =
      omega (arith, (run-Balanced cs 0 create_inbound_scheduler h created-Balanced).total)
