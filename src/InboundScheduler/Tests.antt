-- ===== src/InboundScheduler/Tests.antt =====
-- Runs of the inbound scheduler, and its theorems at concrete histories. Documents are texts.
use anvilkit_plugin_collab_y.Base.{
  ℕ, ◌+◌, ◌≡◌, refl, true, false, none, some, List, [], ◌∷◌, String, string_eq, if◌then◌else◌, ◌==◌,
  length,
}
use anvilkit_plugin_collab_y.Base.Dict.{get, put, has, del}
use anvilkit_plugin_collab_y.InboundScheduler.{
  RemoteChange, Update, Delivery, Scheduler, Call, arrive, frame, create_inbound_scheduler, enqueue,
  enqueue_all, buffer, ensure_scheduled, drain_room, drain_rooms, on_frame, step, run,
}
use anvilkit_plugin_collab_y.InboundScheduler.Burst.{Burst, enqueue_all-Burst, for_room}
use anvilkit_plugin_collab_y.InboundScheduler.Wakeup.{scheduled-run}
use anvilkit_plugin_collab_y.InboundScheduler.Relink.{scoped_ids, pending_scope, coalesced-scoped}
use anvilkit_plugin_collab_y.InboundScheduler.Count.{
  delivered-coalesced, arrivals, reentered, torn_down,
}

abbrev scoped_update : String → String → RemoteChange → ℕ → Update String String
scoped_update room doc scope now = record {
  room_key = room;
  latest = doc;
  from_peer = none;
  touched = some scope;
  now = now;
}

abbrev update : String → String → List String → ℕ → Update String String
update room doc ids now = record {
  room_key = room;
  latest = doc;
  from_peer = none;
  touched = some (record { ids = ids; structural = false; relink = none });
  now = now;
}

abbrev burst : List (Update String String)
burst = update "p" "one" ("a" ∷ []) 3 ∷ update "q" "other" [] 4 ∷ update "p" "two" ("b" ∷ []) 5 ∷ []

-- Room `p` enqueues once more for room `q` when it is flushed.
abbrev echo : Delivery String String → List (Update String String)
echo d = if d.room == "p" then update "q" "echo" [] 9 ∷ [] else []

abbrev history : List (Call String String)
history =
    arrive (update "p" "one" ("a" ∷ []) 3) ∷ arrive (update "p" "two" ("b" ∷ []) 5) ∷ frame 9 ∷ []

abbrev after_history : Scheduler String String
after_history = run echo create_inbound_scheduler history

echoed : has "q" after_history.buffers ≡ true
unfolding run step create_inbound_scheduler enqueue buffer ensure_scheduled on_frame drain_rooms
    drain_room enqueue_all get put del
echoed = refl

scheduled-run_example :
    (after_history.scheduled ≡ true)
    × (after_history.handle ≡ true)
    × (after_history.destroyed ≡ false)
scheduled-run_example = scheduled-run echo history "q" echoed

no_teardown : torn_down history ≡ false
unfolding torn_down
no_teardown = refl

delivered-coalesced_example :
    length after_history.delivered + after_history.coalesced + length after_history.buffers
    ≡ arrivals history + reentered echo after_history.delivered
delivered-coalesced_example = delivered-coalesced echo history no_teardown

new_buffer : get "p" (create_inbound_scheduler {Doc = String} {Peer = String}).buffers ≡ none
unfolding create_inbound_scheduler get
new_buffer = refl

new_alive : (create_inbound_scheduler {Doc = String} {Peer = String}).destroyed ≡ false
unfolding create_inbound_scheduler
new_alive = refl

enqueue_all-Burst_example :
    Burst (for_room "p" burst) (get "p" (enqueue_all create_inbound_scheduler burst).buffers)
enqueue_all-Burst_example =
    enqueue_all-Burst create_inbound_scheduler burst "p" new_alive new_buffer

-- A reorder of the children of `r`, then an edit of a prop of `a`.
abbrev reorder : RemoteChange
reorder = record {
  ids = "r" ∷ [];
  structural = false;
  relink = some (record { added_ids = []; removed_ids = []; parents_touched = "r" ∷ [] });
}

abbrev edit : RemoteChange
edit = record { ids = "a" ∷ []; structural = false; relink = none }

reorder_unscoped : scoped_ids (some reorder) ≡ none
reorder_unscoped = refl

coalesced-scoped_example :
    (scope : RemoteChange) × (pending_scope
        (enqueue
          (enqueue create_inbound_scheduler (scoped_update "p" "one" reorder 3))
          (scoped_update "p" "two" edit 4))
        "p"
      ≡ some (some scope))
    × (scoped_ids (some scope) ≡ some scope.ids)
coalesced-scoped_example =
    coalesced-scoped create_inbound_scheduler (scoped_update "p" "one" reorder 3)
      (scoped_update "p" "two" edit 4) reorder edit new_alive new_buffer refl refl refl refl refl
