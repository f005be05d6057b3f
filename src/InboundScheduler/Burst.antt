-- ===== src/InboundScheduler/Burst.antt =====
-- What a burst of updates leaves in the buffer of a room.
use anvilkit_plugin_collab_y.Base.{
  ◌≡◌, refl, Bool, true, false, ◌||◌, Option, none, some, List, [], ◌∷◌, String, string_eq,
  if◌then◌else◌, ◌==◌, keep, any, arith, ap, beq-cases, Bool-cases, Option-cases, inl, inr,
}
use anvilkit_plugin_collab_y.Base.Dict.{get, get-put}
use anvilkit_plugin_collab_y.Base.IdSet.{mem, mem-add_all}
use anvilkit_plugin_collab_y.InboundScheduler.{
  RemoteChange, merge_remote_change, Update, BufferedEntry, Scheduler, enqueue, enqueue_all, buffer,
  ensure_scheduled, fresh_entry, supersede,
}

abbrev pub unknown : Option RemoteChange → Bool
unknown none = true
unknown (some c) = false

abbrev pub touches : String → Option RemoteChange → Bool
touches id none = false
touches id (some c) = mem id c.ids

abbrev pub structural_change : Option RemoteChange → Bool
structural_change none = false
structural_change (some c) = c.structural

unknown-merge :
    (a b : Option RemoteChange) → unknown (merge_remote_change a b) ≡ (unknown a || unknown b)
unfolding merge_remote_change
unknown-merge none b = refl
unknown-merge (some a) none = refl
unknown-merge (some a) (some b) = refl

touches-merge :
    (id : String) (a b : Option RemoteChange)
    → unknown (merge_remote_change a b) ≡ false
    → touches id (merge_remote_change a b) ≡ (touches id a || touches id b)
unfolding merge_remote_change
touches-merge id none b h = absurd (cc)
touches-merge id (some a) none h = absurd (cc)
touches-merge id (some a) (some b) h = ground (arith, mem-add_all id b.ids a.ids)

structural-merge :
    (a b : Option RemoteChange)
    → unknown (merge_remote_change a b) ≡ false
    → structural_change (merge_remote_change a b) ≡ (structural_change a || structural_change b)
unfolding merge_remote_change
structural-merge none b h = absurd (cc)
structural-merge (some a) none h = absurd (cc)
structural-merge (some a) (some b) h = refl

module _ {Doc Peer : Type 0} where
  -- The updates for a room.
  abbrev pub for_room : String → List (Update Doc Peer) → List (Update Doc Peer)
  for_room room = keep (λ u. u.room_key == room)

  -- The last of a list of updates that starts with `u`.
  unfoldable pub latest_of : Update Doc Peer → List (Update Doc Peer) → Update Doc Peer
  latest_of u [] = u
  latest_of u (v ∷ us) = latest_of v us

  -- A scope covers updates: it is unknown when one of theirs is, and else their union.
  pub record Covers (us : List (Update Doc Peer)) (scope : Option RemoteChange) : Type 0 where
    pub is_unknown : unknown scope ≡ any (λ u. unknown u.touched) us
    pub has_ids :
        (id : String)
        → unknown scope ≡ false
        → touches id scope ≡ any (λ u. touches id u.touched) us
    pub is_structural :
        unknown scope ≡ false → structural_change scope ≡ any (λ u. structural_change u.touched) us

  -- An entry against the updates that it stands for, the first of them `u`.
  pub record Stands (u : Update Doc Peer) (us : List (Update Doc Peer)) (e : BufferedEntry Doc Peer)
      : Type 0 where
    pub has_latest : e.ir ≡ (latest_of u us).latest
    pub has_peer : e.peer ≡ (latest_of u us).from_peer
    pub since : e.first_enqueued_at ≡ u.now
    pub covers : Covers (u ∷ us) e.changed

  -- What a buffer has for a room after updates for it.
  abbrev pub Burst : List (Update Doc Peer) → Option (BufferedEntry Doc Peer) → Type 0
  Burst [] o = o ≡ none
  Burst (u ∷ us) o = (e : BufferedEntry Doc Peer) × (o ≡ some e) × Stands u us e

  -- The loop, from any entry in the buffer.
  abbrev absorb : BufferedEntry Doc Peer → List (Update Doc Peer) → BufferedEntry Doc Peer
  absorb e [] = e
  absorb e (u ∷ us) = absorb (supersede e u) us

  pub get-enqueue :
      (s : Scheduler Doc Peer) (u : Update Doc Peer) (room : String)
      → s.destroyed ≡ false
      → get room (enqueue s u).buffers ≡ (
          if u.room_key == room
          then elim (get room s.buffers) [
            | none ↦ some (fresh_entry u)
            | some e ↦ some (supersede e u)
          ]
          else get room s.buffers)
  unfolding enqueue buffer ensure_scheduled
  get-enqueue s u room h = elim (beq-cases u.room_key room) [
    | inl (t, q) ↦ elim (Option-cases (get u.room_key s.buffers)) [
      | inl g ↦ ground (arith, get-put room u.room_key (fresh_entry u) s.buffers, at_room q, g, t)
      | inr (e, g) ↦
          ground (arith, get-put room u.room_key (supersede e u) s.buffers, at_room q, g, t)
    ]
    | inr (f, q) ↦ elim (Option-cases (get u.room_key s.buffers)) [
      | inl g ↦ ground (arith, get-put room u.room_key (fresh_entry u) s.buffers, g, f)
      | inr (e, g) ↦ ground (arith, get-put room u.room_key (supersede e u) s.buffers, g, f)
    ]
  ]
    where
      at_room : u.room_key ≡ room → get u.room_key s.buffers ≡ get room s.buffers
      at_room q = ap (λ k. get k s.buffers) q

  pub enqueue-alive :
      (s : Scheduler Doc Peer) (u : Update Doc Peer)
      → s.destroyed ≡ false
      → (enqueue s u).destroyed ≡ false
  unfolding enqueue buffer ensure_scheduled
  enqueue-alive s u h = ground arith

  get-absorb :
      (us : List (Update Doc Peer)) (s : Scheduler Doc Peer) (room : String)
      (e : BufferedEntry Doc Peer)
      → s.destroyed ≡ false
      → get room s.buffers ≡ some e
      → get room (enqueue_all s us).buffers ≡ some (absorb e (for_room room us))
  unfolding enqueue_all
  get-absorb [] s room e h g = g
  get-absorb (u ∷ us) s room e h g = elim (Bool-cases (u.room_key == room)) [
    | inl t ↦ rw t (
        get-absorb us (enqueue s u) room (supersede e u) (enqueue-alive s u h)
          (ground (arith, get-enqueue s u room h)))
    | inr f ↦ rw f (
        get-absorb us (enqueue s u) room e (enqueue-alive s u h)
          (ground (arith, get-enqueue s u room h)))
  ]

  absorb-latest :
      (us : List (Update Doc Peer)) (e : BufferedEntry Doc Peer) (u : Update Doc Peer)
      → e.ir ≡ u.latest
      → e.peer ≡ u.from_peer
      → ((absorb e us).ir ≡ (latest_of u us).latest)
        × ((absorb e us).peer ≡ (latest_of u us).from_peer)
  unfolding latest_of
  absorb-latest [] e u h k = (h, k)
  absorb-latest (v ∷ us) e u h k = absorb-latest us (supersede e v) v refl refl

  absorb-since :
      (us : List (Update Doc Peer)) (e : BufferedEntry Doc Peer)
      → (absorb e us).first_enqueued_at ≡ e.first_enqueued_at
  absorb-since [] e = refl
  absorb-since (v ∷ us) e = absorb-since us (supersede e v)

  absorb-unknown :
      (us : List (Update Doc Peer)) (e : BufferedEntry Doc Peer)
      → unknown (absorb e us).changed ≡ (unknown e.changed || any (λ u. unknown u.touched) us)
  absorb-unknown [] e = ground arith
  absorb-unknown (v ∷ us) e =
      ground (arith, absorb-unknown us (supersede e v), unknown-merge e.changed v.touched)

  absorb-touches :
      (id : String) (us : List (Update Doc Peer)) (e : BufferedEntry Doc Peer)
      → unknown (absorb e us).changed ≡ false
      → touches id (absorb e us).changed
        ≡ (touches id e.changed || any (λ u. touches id u.touched) us)
  absorb-touches id [] e h = ground arith
  absorb-touches id (v ∷ us) e h = ground (
    arith,
    absorb-touches id us (supersede e v) h,
    absorb-unknown us (supersede e v),
    touches-merge id e.changed v.touched,
  )

  absorb-structural :
      (us : List (Update Doc Peer)) (e : BufferedEntry Doc Peer)
      → unknown (absorb e us).changed ≡ false
      → structural_change (absorb e us).changed
        ≡ (structural_change e.changed || any (λ u. structural_change u.touched) us)
  absorb-structural [] e h = ground arith
  absorb-structural (v ∷ us) e h = ground (
    arith,
    absorb-structural us (supersede e v) h,
    absorb-unknown us (supersede e v),
    structural-merge e.changed v.touched,
  )

  absorb-Stands :
      (u : Update Doc Peer) (us : List (Update Doc Peer)) → Stands u us (absorb (fresh_entry u) us)
  absorb-Stands u us = record {
    has_latest = (absorb-latest us (fresh_entry u) u refl refl).0;
    has_peer = (absorb-latest us (fresh_entry u) u refl refl).1;
    since = absorb-since us (fresh_entry u);
    covers = record {
      is_unknown = absorb-unknown us (fresh_entry u);
      has_ids = λ id h. absorb-touches id us (fresh_entry u) h;
      is_structural = absorb-structural us (fresh_entry u);
    };
  }

  -- In a scheduler that was not destroyed, and whose buffer for a room is empty, updates for
  -- several rooms leave nothing for the room if none was for it, and else one entry that stands
  -- for its updates: the document and the peer of the last, the clock of the first, and a scope
  -- that is unknown when one of theirs is, and else has their ids and is structural when one is.
  pub enqueue_all-Burst :
      (s : Scheduler Doc Peer) (us : List (Update Doc Peer)) (room : String)
      → s.destroyed ≡ false
      → get room s.buffers ≡ none
      → Burst (for_room room us) (get room (enqueue_all s us).buffers)
  unfolding enqueue_all
  enqueue_all-Burst s [] room h g = g
  enqueue_all-Burst s (u ∷ us) room h g = elim (Bool-cases (u.room_key == room)) [
    | inl t ↦ rw t (
      absorb (fresh_entry u) (for_room room us),
      get-absorb us (enqueue s u) room (fresh_entry u) (enqueue-alive s u h)
          (ground (arith, get-enqueue s u room h)),
      absorb-Stands u (for_room room us),
    )
    | inr f ↦ rw f (
        enqueue_all-Burst (enqueue s u) us room (enqueue-alive s u h)
          (ground (arith, get-enqueue s u room h)))
  ]
