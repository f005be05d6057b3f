-- ===== src/InboundScheduler.antt =====
-- src/utils/inbound-scheduler.ts: remote documents are buffered for each room, the latest wins,
-- and are flushed once a frame. Calls of `options.flush` are the list `delivered`; what such a
-- call enqueues again is the parameter `reentry`. A call carries its reading of `nowMs()`.
-- `handle` says that a requested frame is still to come.
pub mod Burst
pub mod Wakeup
pub mod Count
pub mod Relink
mod Tests
use anvilkit_plugin_collab_y.Base.{
  ℕ, ◌+◌, ◌-◌, Bool, true, false, ◌||◌, Option, none, some, List, [], ◌∷◌, ◌++◌, String, string_eq,
  if◌then◌else◌,
}
use anvilkit_plugin_collab_y.Base.Dict.{Dict, keys, get, put, del}
use anvilkit_plugin_collab_y.Base.IdSet.{add_all}

-- A change of the tree's links that needs no rebuild.
pub record RelinkDelta : Type 0 where
  pub added_ids : List String
  pub removed_ids : List String
  pub parents_touched : List String

-- What an update touched: the ids of a set, and whether the structure changed.
pub record RemoteChange : Type 0 where
  pub ids : List String
  pub structural : Bool
  pub relink : Option RelinkDelta

unfoldable pub merge_remote_change : Option RemoteChange → Option RemoteChange → Option RemoteChange
merge_remote_change none b = none
merge_remote_change (some a) none = none
merge_remote_change (some a) (some b) =
    some (record {
      ids = add_all b.ids a.ids;
      structural = a.structural || b.structural;
      relink = none;
    })

module _ (Doc Peer : Type 0) where
  pub record BufferedEntry : Type 0 where
    pub ir : Doc
    pub peer : Option Peer
    pub first_enqueued_at : ℕ
    pub changed : Option RemoteChange

  -- The arguments of a call of `enqueue`, with the clock at that time.
  pub record Update : Type 0 where
    pub room_key : String
    pub latest : Doc
    pub from_peer : Option Peer
    pub touched : Option RemoteChange
    pub now : ℕ

  -- The arguments of a call of `flush`.
  pub record Delivery : Type 0 where
    pub room : String
    pub document : Doc
    pub sender : Option Peer
    pub queue_delay_ms : ℕ
    pub scope : Option RemoteChange

  pub record Scheduler : Type 0 where
    pub buffers : Dict String BufferedEntry
    pub handle : Bool
    pub scheduled : Bool
    pub destroyed : Bool
    pub coalesced : ℕ
    pub delivered : List Delivery

module _ {Doc Peer : Type 0} where
  unfoldable pub create_inbound_scheduler : Scheduler Doc Peer
  create_inbound_scheduler = record {
    buffers = [];
    handle = false;
    scheduled = false;
    destroyed = false;
    coalesced = 0;
    delivered = [];
  }

  unfoldable pub ensure_scheduled : Scheduler Doc Peer → Scheduler Doc Peer
  ensure_scheduled s =
      if s.scheduled || s.destroyed then s else record s { scheduled = true; handle = true }

  abbrev pub fresh_entry : Update Doc Peer → BufferedEntry Doc Peer
  fresh_entry u = record {
    ir = u.latest;
    peer = u.from_peer;
    first_enqueued_at = u.now;
    changed = u.touched;
  }

  -- The assignments to `existing`.
  abbrev pub supersede : BufferedEntry Doc Peer → Update Doc Peer → BufferedEntry Doc Peer
  supersede e u = record e {
    changed = merge_remote_change e.changed u.touched;
    ir = u.latest;
    peer = u.from_peer;
  }

  unfoldable pub buffer : Scheduler Doc Peer → Update Doc Peer → Scheduler Doc Peer
  buffer s u = elim (get u.room_key s.buffers) [
    | some existing ↦ record s {
      coalesced = s.coalesced + 1;
      buffers = put u.room_key (supersede existing u) s.buffers;
    }
    | none ↦ record s { buffers = put u.room_key (fresh_entry u) s.buffers }
  ]

  unfoldable pub enqueue : Scheduler Doc Peer → Update Doc Peer → Scheduler Doc Peer
  unfolding buffer ensure_scheduled
  enqueue s u = if s.destroyed then s else ensure_scheduled (buffer s u)

  unfoldable pub enqueue_all : Scheduler Doc Peer → List (Update Doc Peer) → Scheduler Doc Peer
  enqueue_all s [] = s
  enqueue_all s (u ∷ us) = enqueue_all (enqueue s u) us

  abbrev pub delivery : String → BufferedEntry Doc Peer → ℕ → Delivery Doc Peer
  delivery room e now = record {
    room = room;
    document = e.ir;
    sender = e.peer;
    queue_delay_ms = now - e.first_enqueued_at;
    scope = e.changed;
  }

  unfoldable pub destroy : Scheduler Doc Peer → Scheduler Doc Peer
  destroy s = record s { destroyed = true; handle = false; scheduled = false; buffers = [] }

  module _ (reentry : Delivery Doc Peer → List (Update Doc Peer)) where
    -- The entry is deleted before `flush` is called, so what `flush` enqueues is a new entry.
    unfoldable pub drain_room : Scheduler Doc Peer → String → ℕ → Scheduler Doc Peer
    drain_room s room now = elim (get room s.buffers) [
      | none ↦ s
      | some e ↦
          enqueue_all
            (record s {
              buffers = del room s.buffers;
              delivered = s.delivered ++ (delivery room e now ∷ []);
            })
            (reentry (delivery room e now))
    ]

    unfoldable pub drain_rooms : Scheduler Doc Peer → List String → ℕ → Scheduler Doc Peer
    drain_rooms s [] now = s
    drain_rooms s (room ∷ rooms) now = drain_rooms (drain_room s room now) rooms now

    unfoldable pub on_frame : Scheduler Doc Peer → ℕ → Scheduler Doc Peer
    on_frame s now =
        let idle = record s { scheduled = false; handle = false } in
        if s.destroyed then idle else drain_rooms idle (keys s.buffers) now

    unfoldable pub flush_now : Scheduler Doc Peer → Option String → ℕ → Scheduler Doc Peer
    flush_now s none now = drain_rooms s (keys s.buffers) now
    flush_now s (some room) now = drain_room s room now

-- A history of calls and frames.
pub data Call (Doc Peer : Type 0) : Type 0 where
  arrive : Update Doc Peer → Call Doc Peer
  frame : ℕ → Call Doc Peer
  force : Option String → ℕ → Call Doc Peer
  teardown : Call Doc Peer

module _ {Doc Peer : Type 0} (reentry : Delivery Doc Peer → List (Update Doc Peer)) where
  unfoldable pub step : Scheduler Doc Peer → Call Doc Peer → Scheduler Doc Peer
  step s (arrive u) = enqueue s u
  step s (frame now) = on_frame reentry s now
  step s (force room now) = flush_now reentry s room now
  step s teardown = destroy s

  unfoldable pub run : Scheduler Doc Peer → List (Call Doc Peer) → Scheduler Doc Peer
  run s [] = s
  run s (c ∷ cs) = run (step s c) cs
