-- ===== src/ConnectionStatus.antt =====
-- src/utils/connection-status.ts: the current status, the listeners, and the subscription to the
-- host's source. A listener is a number, and the calls of listeners are the list `notified`.
-- `getQueuedEdits()` and the time are arguments of the calls that read them.
pub mod Listeners
mod Tests
use anvilkit_plugin_collab_y.Base.{
  ℕ, ◌+◌, Bool, true, false, not, ◌&&◌, Option, List, [], ◌∷◌, ◌++◌, map, String, nat_eq,
  if◌then◌else◌,
}
use anvilkit_plugin_collab_y.Base.IdSet.{add, discard}

pub data Status : Type 0 where
  connecting : Status
  synced : String → Status
  offline : String → ℕ → Status
  reconnecting : ℕ → ℕ → Status
  error : String → Bool → Option String → Status

pub record ConnectionStatus : Type 0 where
  pub has_source : Bool
  pub listeners : List ℕ
  pub current : Status
  pub started : Bool
  pub attached : Bool
  pub attach_calls : ℕ
  pub synced_calls : ℕ
  pub notified : List (ℕ × Status)

unfoldable pub create_connection_status : Bool → ConnectionStatus
create_connection_status source = record {
  has_source = source;
  listeners = [];
  current = connecting;
  started = false;
  attached = false;
  attach_calls = 0;
  synced_calls = 0;
  notified = [];
}

-- The status that is stored: an offline status gets the queue depth of the adapter.
abbrev pub effective : Status → ℕ → Status
effective (offline since ignored) queued = offline since queued
effective next queued = next

-- One more call of `onSynced` for a synced status.
abbrev pub synced_count : Status → ℕ → ℕ
synced_count (synced since) n = n + 1
synced_count next n = n

-- A call of each listener.
abbrev pub notify_all : Status → List ℕ → List (ℕ × Status)
notify_all status = map (λ k. (k, status))

unfoldable pub emit : ConnectionStatus → Status → ℕ → ConnectionStatus
emit c next queued = record c {
  synced_calls = synced_count next c.synced_calls;
  current = effective next queued;
  notified = c.notified ++ notify_all (effective next queued) c.listeners;
}

unfoldable pub on_status_change : ConnectionStatus → ℕ → ConnectionStatus
on_status_change c callback = record c {
  listeners = add callback c.listeners;
  notified = c.notified ++ ((callback, c.current) ∷ []);
}

unfoldable pub unsubscribe : ConnectionStatus → ℕ → ConnectionStatus
unsubscribe c callback = record c { listeners = discard callback c.listeners }

abbrev pub is_connecting : Status → Bool
is_connecting connecting = true
is_connecting status = false

unfoldable pub notify_subscribe_registered : ConnectionStatus → String → ConnectionStatus
unfolding emit
notify_subscribe_registered c now =
    if not c.has_source && is_connecting c.current then emit c (synced now) 0 else c

-- What the source emits when it is attached are calls of `emit` that come next.
unfoldable pub start : ConnectionStatus → ConnectionStatus
start c =
    if c.started
    then c
    else if c.has_source
    then record c { started = true; attached = true; attach_calls = c.attach_calls + 1 }
    else record c { started = true }

unfoldable pub destroy : ConnectionStatus → ConnectionStatus
destroy c = record c { attached = false; listeners = [] }

pub data Call : Type 0 where
  emitting : Status → ℕ → Call
  listening leaving : ℕ → Call
  registered : String → Call
  starting teardown : Call

unfoldable pub step : ConnectionStatus → Call → ConnectionStatus
step c (emitting next queued) = emit c next queued
step c (listening callback) = on_status_change c callback
step c (leaving callback) = unsubscribe c callback
step c (registered now) = notify_subscribe_registered c now
step c starting = start c
step c teardown = destroy c

unfoldable pub run : ConnectionStatus → List Call → ConnectionStatus
run c [] = c
run c (e ∷ es) = run (step c e) es
