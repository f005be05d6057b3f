-- ===== src/InboundScheduler/Wakeup.antt =====
-- No update is left behind without a frame to come, and a destroyed scheduler is silent.
use anvilkit_plugin_collab_y.Base.{
  ℕ, ◌≡◌, refl, ◌∙◌, true, false, ◌||◌, Option, none, some, List, [], ◌∷◌, String, string_eq, arith,
  ap, if-both, Option-cases, inl, inr,
}
use anvilkit_plugin_collab_y.Base.Dict.{get, del, keys, has, get-del, mem-keys}
use anvilkit_plugin_collab_y.Base.IdSet.{mem}
use anvilkit_plugin_collab_y.InboundScheduler.{
  Update, Scheduler, Delivery, Call, arrive, frame, force, teardown, enqueue, enqueue_all, buffer,
  ensure_scheduled, drain_room, drain_rooms, on_frame, flush_now, destroy, step, run, delivery,
  create_inbound_scheduler,
}

module _ {Doc Peer : Type 0} (reentry : Delivery Doc Peer → List (Update Doc Peer)) where
  -- A room in the buffer is still to be drained by the loop, or a frame is to come.
  Awaited : List String → Scheduler Doc Peer → Type 0
  Awaited rooms s =
      (room : String) → has room s.buffers ≡ true → (mem room rooms || s.scheduled) ≡ true

  enqueue-Awaited :
      (rooms : List String) (s : Scheduler Doc Peer) (u : Update Doc Peer)
      → Awaited rooms s
      → Awaited rooms (enqueue s u)
  unfolding Awaited enqueue buffer ensure_scheduled
  enqueue-Awaited rooms s u h room = ground (arith, h room)

  enqueue_all-Awaited :
      (rooms : List String) (us : List (Update Doc Peer)) (s : Scheduler Doc Peer)
      → Awaited rooms s
      → Awaited rooms (enqueue_all s us)
  unfolding enqueue_all
  enqueue_all-Awaited rooms [] s h = h
  enqueue_all-Awaited rooms (u ∷ us) s h =
      enqueue_all-Awaited rooms us (enqueue s u) (enqueue-Awaited rooms s u h)

  -- What stands before a room is deleted from the buffer does so after it, less that room.
  taken-Awaited :
      (room : String) (rooms : List String) (s : Scheduler Doc Peer) (ds : List (Delivery Doc Peer))
      → Awaited (room ∷ rooms) s
      → Awaited rooms (record s { buffers = del room s.buffers; delivered = ds })
  unfolding Awaited mem
  taken-Awaited room rooms s ds h r = ground (arith, h r, get-del r room s.buffers)

  absent-Awaited :
      (room : String) (rooms : List String) (s : Scheduler Doc Peer)
      → get room s.buffers ≡ none
      → Awaited (room ∷ rooms) s
      → Awaited rooms s
  unfolding Awaited mem
  absent-Awaited room rooms s g h r = ground (arith, h r, string_eq.same_key_iff room r)

  drain_room-Awaited :
      (room : String) (rooms : List String) (s : Scheduler Doc Peer) (now : ℕ)
      → Awaited (room ∷ rooms) s
      → Awaited rooms (drain_room reentry s room now)
  unfolding drain_room
  drain_room-Awaited room rooms s now h = elim (Option-cases (get room s.buffers)) [
    | inl g ↦ rw (g, drain_room) (absent-Awaited room rooms s g h)
    | inr (e, g) ↦
        rw (g, drain_room)
          (enqueue_all-Awaited rooms (reentry (delivery room e now)) _
            (taken-Awaited room rooms s _ h))
  ]

  drain_rooms-Awaited :
      (rooms : List String) (s : Scheduler Doc Peer) (now : ℕ)
      → Awaited rooms s
      → Awaited [] (drain_rooms reentry s rooms now)
  unfolding drain_rooms
  drain_rooms-Awaited [] s now h = h
  drain_rooms-Awaited (room ∷ rooms) s now h =
      drain_rooms-Awaited rooms (drain_room reentry s room now) now
        (drain_room-Awaited room rooms s now h)

  weaken-Awaited : (rooms : List String) (s : Scheduler Doc Peer) → Awaited [] s → Awaited rooms s
  unfolding Awaited mem
  weaken-Awaited rooms s h r = ground (arith, h r)

  -- A destroyed scheduler has no room and no frame. A handle is kept for a frame to come.
  pub record Settled (s : Scheduler Doc Peer) : Type 0 where
    pub silent : s.destroyed ≡ true → (s.buffers ≡ []) × (s.scheduled ≡ false)
    pub held : s.handle ≡ s.scheduled

  enqueue-Settled :
      (s : Scheduler Doc Peer) (u : Update Doc Peer) → Settled s → Settled (enqueue s u)
  unfolding enqueue buffer ensure_scheduled
  enqueue-Settled s u w = record {
    silent = λ h. ground (arith, w.silent);
    held = ground (arith, w.held);
  }

  enqueue_all-Settled :
      (us : List (Update Doc Peer)) (s : Scheduler Doc Peer)
      → Settled s
      → Settled (enqueue_all s us)
  unfolding enqueue_all
  enqueue_all-Settled [] s w = w
  enqueue_all-Settled (u ∷ us) s w = enqueue_all-Settled us (enqueue s u) (enqueue-Settled s u w)

  drain_room-Settled :
      (room : String) (s : Scheduler Doc Peer) (now : ℕ)
      → Settled s
      → Settled (drain_room reentry s room now)
  unfolding drain_room del
  drain_room-Settled room s now w = elim (Option-cases (get room s.buffers)) [
    | inl g ↦ rw (g, drain_room) w
    | inr (e, g) ↦
        rw (g, drain_room)
          (enqueue_all-Settled (reentry (delivery room e now)) _ (record {
            silent = λ h. (ap (del room) (w.silent h).0, (w.silent h).1);
            held = w.held;
          }))
  ]

  drain_rooms-Settled :
      (rooms : List String) (s : Scheduler Doc Peer) (now : ℕ)
      → Settled s
      → Settled (drain_rooms reentry s rooms now)
  unfolding drain_rooms
  drain_rooms-Settled [] s now w = w
  drain_rooms-Settled (room ∷ rooms) s now w =
      drain_rooms-Settled rooms (drain_room reentry s room now) now
        (drain_room-Settled room s now w)

  abbrev Inv : Scheduler Doc Peer → Type 0
  Inv s = Awaited [] s × Settled s

  enter-frame :
      (s : Scheduler Doc Peer)
      → Settled s
      → Settled (record s { scheduled = false; handle = false })
  enter-frame s w = record { silent = λ h. ((w.silent h).0, refl); held = refl }

  snapshot-Awaited :
      (s : Scheduler Doc Peer)
      → Awaited (keys s.buffers) (record s { scheduled = false; handle = false })
  unfolding Awaited
  snapshot-Awaited s room = ground (arith, mem-keys room s.buffers)

  on_frame-Inv : (s : Scheduler Doc Peer) (now : ℕ) → Inv s → Inv (on_frame reentry s now)
  unfolding on_frame Awaited get
  on_frame-Inv s now (a, w) =
      if-both Inv s.destroyed _ _ (λ t. ((λ room. ground (arith, (w.silent t).0)), enter-frame s w))
        (λ f. (
          drain_rooms-Awaited (keys s.buffers) _ now (snapshot-Awaited s),
          drain_rooms-Settled (keys s.buffers) _ now (enter-frame s w),
        ))

  flush_now-Inv :
      (s : Scheduler Doc Peer) (room : Option String) (now : ℕ)
      → Inv s
      → Inv (flush_now reentry s room now)
  unfolding flush_now
  flush_now-Inv s none now (a, w) = (
    drain_rooms-Awaited (keys s.buffers) s now (weaken-Awaited (keys s.buffers) s a),
    drain_rooms-Settled (keys s.buffers) s now w,
  )
  flush_now-Inv s (some room) now (a, w) = (
    drain_room-Awaited room [] s now (weaken-Awaited (room ∷ []) s a),
    drain_room-Settled room s now w,
  )

  step-Inv : (s : Scheduler Doc Peer) (c : Call Doc Peer) → Inv s → Inv (step reentry s c)
  unfolding step destroy Awaited get
  step-Inv s (arrive u) (a, w) = (enqueue-Awaited [] s u a, enqueue-Settled s u w)
  step-Inv s (frame now) i = on_frame-Inv s now i
  step-Inv s (force room now) i = flush_now-Inv s room now i
  step-Inv s teardown i =
      ((λ room h. absurd (cc)), record { silent = λ h. (refl, refl); held = refl })

  run-Inv : (cs : List (Call Doc Peer)) (s : Scheduler Doc Peer) → Inv s → Inv (run reentry s cs)
  unfolding run
  run-Inv [] s i = i
  run-Inv (c ∷ cs) s i = run-Inv cs (step reentry s c) (step-Inv s c i)

  created-Inv : Inv create_inbound_scheduler
  unfolding create_inbound_scheduler Awaited get
  created-Inv = ((λ room h. absurd (cc)), record { silent = λ h. absurd (cc); held = refl })

  -- No lost wake-up: after any history of calls and frames on a new scheduler, whatever `flush`
  -- enqueues again, a room in the buffer has a frame to come that `destroy` would cancel.
  pub scheduled-run :
      (cs : List (Call Doc Peer)) (room : String)
      → let s = run reentry create_inbound_scheduler cs in
        has room s.buffers ≡ true → (s.scheduled ≡ true) × (s.handle ≡ true) × (s.destroyed ≡ false)
  unfolding Awaited get mem
  scheduled-run cs room h = ground (
    arith,
    (run-Inv cs create_inbound_scheduler created-Inv).0 room,
    (run-Inv cs create_inbound_scheduler created-Inv).1.silent,
    (run-Inv cs create_inbound_scheduler created-Inv).1.held,
  )

  destroy-step :
      (s : Scheduler Doc Peer) (c : Call Doc Peer) → step reentry (destroy s) c ≡ destroy s
  unfolding step destroy enqueue on_frame flush_now drain_room drain_rooms get
  destroy-step s (arrive u) = refl
  destroy-step s (frame now) = refl
  destroy-step s (force none now) = refl
  destroy-step s (force (some room) now) = refl
  destroy-step s teardown = refl

  run_fixed :
      (cs : List (Call Doc Peer)) (s : Scheduler Doc Peer)
      → ((c : Call Doc Peer) → step reentry s c ≡ s)
      → run reentry s cs ≡ s
  unfolding run
  run_fixed [] s f = refl
  run_fixed (c ∷ cs) s f = ap (λ t. run reentry t cs) (f c) ∙ run_fixed cs s f

  -- After a destroy no call and no frame, one that could not be cancelled included, flushes or
  -- buffers anything: the scheduler stays as the destroy left it, with an empty buffer.
  pub destroy-run :
      (cs : List (Call Doc Peer)) (s : Scheduler Doc Peer)
      → let out = run reentry s (teardown ∷ cs) in
        (out.delivered ≡ s.delivered) × (out.buffers ≡ []) × (out.coalesced ≡ s.coalesced)
  unfolding run step destroy
  destroy-run cs s = rw destroyed_run (refl, refl, refl)
    where
      destroyed_run : run reentry (destroy s) cs ≡ destroy s
      destroyed_run = run_fixed cs (destroy s) (destroy-step s)
