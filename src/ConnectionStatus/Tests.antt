-- ===== src/ConnectionStatus/Tests.antt =====
-- A history of the connection status, and its theorems there.
use anvilkit_plugin_collab_y.Base.{◌≡◌, refl, true, some, List, [], ◌∷◌, nat_eq}
use anvilkit_plugin_collab_y.Base.Dict.{last_of}
use anvilkit_plugin_collab_y.Base.IdSet.{mem, add, discard}
use anvilkit_plugin_collab_y.ConnectionStatus.{
  Call, emitting, listening, leaving, registered, starting, offline, ConnectionStatus,
  create_connection_status, emit, on_status_change, unsubscribe, notify_subscribe_registered, start,
  step, run,
}
use anvilkit_plugin_collab_y.ConnectionStatus.Listeners.{last_of-notified}

-- The source says that nothing is queued; the adapter has three edits.
abbrev history : List Call
history =
    starting
    ∷ listening 1
    ∷ listening 2
    ∷ emitting (offline "t" 0) 3
    ∷ starting
    ∷ leaving 2
    ∷ registered "u"
    ∷ []

abbrev after_history : ConnectionStatus
after_history = run (create_connection_status true) history

queue_depth : after_history.current ≡ offline "t" 3
unfolding run step create_connection_status emit on_status_change unsubscribe
    notify_subscribe_registered start
queue_depth = refl

one_listens : mem 1 after_history.listeners ≡ true
unfolding run step create_connection_status emit on_status_change unsubscribe
    notify_subscribe_registered start mem add discard
one_listens = refl

last_of-notified_example : last_of 1 after_history.notified ≡ some after_history.current
last_of-notified_example = last_of-notified true history 1 one_listens
