-- ===== src/DebouncedAdapter.antt =====
-- src/utils/debounced-adapter.ts: saves within a quiet window become one write of the latest.
-- A promise that `save` returns is its number. The upstream adapter's `save` either throws at
-- once or gives a promise that settles later: what it does is an argument of the timer's tick,
-- and the promises that it has not settled are `in_flight`, by the number of the write.
pub mod Promises
pub mod Latest
mod Tests
use anvilkit_plugin_collab_y.Base.{
  ℕ, ◌+◌, Bool, true, false, Option, none, some, List, [], ◌∷◌, ◌++◌, map, nat_eq, if◌then◌else◌,
}
use anvilkit_plugin_collab_y.Base.Dict.{Dict, get, put, del}

-- How a promise ends: with the id of a snapshot, with the reason of the upstream adapter, or
-- with `DebouncedAdapterDestroyedError`.
pub data Outcome (SnapshotId Reason : Type 0) : Type 0 where
  resolved : SnapshotId → Outcome SnapshotId Reason
  rejected : Reason → Outcome SnapshotId Reason
  destroyed_error : Outcome SnapshotId Reason

-- What `adapter.save` does when it is called.
pub data Upstream (Reason : Type 0) : Type 0 where
  throws : Reason → Upstream Reason
  promises : Upstream Reason

module _ (Doc Meta : Type 0) where
  pub record PendingSave : Type 0 where
    pub ir : Doc
    pub meta : Meta
    pub resolvers : List ℕ
    pub rejecters : List ℕ

module _ (Doc Meta SnapshotId Reason : Type 0) where
  pub record Debouncer : Type 0 where
    pub pending : Option (PendingSave Doc Meta)
    pub timer : Bool
    pub save_calls : ℕ
    pub transport_writes : ℕ
    pub destroyed : Bool
    pub issued : ℕ
    pub written : List (Doc × Meta)
    pub in_flight : Dict ℕ (PendingSave Doc Meta)
    pub settled : List (ℕ × Outcome SnapshotId Reason)

module _ {SnapshotId Reason : Type 0} where
  -- `for (const settle of callbacks) settle(outcome)`
  abbrev pub settle_all : Outcome SnapshotId Reason → List ℕ → List (ℕ × Outcome SnapshotId Reason)
  settle_all o = map (λ k. (k, o))

module _ {Doc Meta : Type 0} where
  -- The pending save with one more caller.
  unfoldable pub join : Option (PendingSave Doc Meta) → Doc → Meta → ℕ → PendingSave Doc Meta
  join none ir meta k = record { ir = ir; meta = meta; resolvers = k ∷ []; rejecters = k ∷ [] }
  join (some p) ir meta k = record {
    ir = ir;
    meta = meta;
    resolvers = p.resolvers ++ (k ∷ []);
    rejecters = p.rejecters ++ (k ∷ []);
  }

module _ {Doc Meta SnapshotId Reason : Type 0} where
  unfoldable pub create_debounced_adapter : Debouncer Doc Meta SnapshotId Reason
  create_debounced_adapter = record {
    pending = none;
    timer = false;
    save_calls = 0;
    transport_writes = 0;
    destroyed = false;
    issued = 0;
    written = [];
    in_flight = [];
    settled = [];
  }

  unfoldable pub save :
      Debouncer Doc Meta SnapshotId Reason → Doc → Meta → Debouncer Doc Meta SnapshotId Reason
  save d ir meta =
      if d.destroyed
      then record d {
        issued = d.issued + 1;
        settled = d.settled ++ ((d.issued, destroyed_error) ∷ []);
      }
      else record d {
        save_calls = d.save_calls + 1;
        issued = d.issued + 1;
        pending = some (join d.pending ir meta d.issued);
        timer = true;
      }

  -- The call of `adapter.save`, by what it does.
  unfoldable pub write :
      Debouncer Doc Meta SnapshotId Reason
      → PendingSave Doc Meta
      → Upstream Reason
      → Debouncer Doc Meta SnapshotId Reason
  write d current (throws reason) = record d {
    settled = d.settled ++ settle_all (rejected reason) current.rejecters;
  }
  write d current promises = record d { in_flight = put d.transport_writes current d.in_flight }

  unfoldable pub flush :
      Debouncer Doc Meta SnapshotId Reason → Upstream Reason → Debouncer Doc Meta SnapshotId Reason
  flush d upstream = elim d.pending [
    | none ↦ d
    | some current ↦
        write
          (record d {
            pending = none;
            timer = false;
            transport_writes = d.transport_writes + 1;
            written = d.written ++ ((current.ir, current.meta) ∷ []);
          })
          current upstream
  ]

  -- The two callbacks of `Promise.resolve(result).then(…)`.
  abbrev pub answered :
      PendingSave Doc Meta → Outcome SnapshotId Reason → List (ℕ × Outcome SnapshotId Reason)
  answered current (resolved id) = settle_all (resolved id) current.resolvers
  answered current (rejected reason) = settle_all (rejected reason) current.rejecters
  answered current destroyed_error = settle_all destroyed_error current.rejecters

  -- The upstream promise of a write settles: its callbacks run once.
  unfoldable pub answer :
      Debouncer Doc Meta SnapshotId Reason
      → ℕ
      → Outcome SnapshotId Reason
      → Debouncer Doc Meta SnapshotId Reason
  answer d w outcome = elim (get w d.in_flight) [
    | none ↦ d
    | some current ↦ record d {
      in_flight = del w d.in_flight;
      settled = d.settled ++ answered current outcome;
    }
  ]

  abbrev pub reject_pending : Option (PendingSave Doc Meta) → List (ℕ × Outcome SnapshotId Reason)
  reject_pending none = []
  reject_pending (some current) = settle_all destroyed_error current.rejecters

  unfoldable pub destroy :
      Debouncer Doc Meta SnapshotId Reason → Debouncer Doc Meta SnapshotId Reason
  destroy d = if d.destroyed then d else record d {
    destroyed = true;
    timer = false;
    pending = none;
    settled = d.settled ++ reject_pending d.pending;
  }

-- A history: calls of `save` and `destroy`, timers that run out, and upstream answers.
pub data Event (Doc Meta SnapshotId Reason : Type 0) : Type 0 where
  saving : Doc → Meta → Event Doc Meta SnapshotId Reason
  tick : Upstream Reason → Event Doc Meta SnapshotId Reason
  answers : ℕ → Outcome SnapshotId Reason → Event Doc Meta SnapshotId Reason
  teardown : Event Doc Meta SnapshotId Reason

module _ {Doc Meta SnapshotId Reason : Type 0} where
  unfoldable pub step :
      Debouncer Doc Meta SnapshotId Reason
      → Event Doc Meta SnapshotId Reason
      → Debouncer Doc Meta SnapshotId Reason
  step d (saving ir meta) = save d ir meta
  step d (tick upstream) = if d.timer then flush d upstream else d
  step d (answers w outcome) = answer d w outcome
  step d teardown = destroy d

  unfoldable pub run :
      Debouncer Doc Meta SnapshotId Reason
      → List (Event Doc Meta SnapshotId Reason)
      → Debouncer Doc Meta SnapshotId Reason
  run d [] = d
  run d (c ∷ cs) = run (step d c) cs
