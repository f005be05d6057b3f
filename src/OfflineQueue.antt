-- ===== src/OfflineQueue.antt =====
-- src/persistence/offline-queue.ts: the buffer before the backend is ready, its bound, and the
-- calls of `backend.append` (`rows`) and `backend.compact` (`compactions`). An update is any
-- type. `merge` is `Y.mergeUpdatesV2`, where `none` is a throw; `compact_every` is `none` for
-- `Infinity`.
pub mod Bounds
pub mod Lossless
mod Tests
use anvilkit_plugin_collab_y.Base.{
  ℕ, ◌+◌, ◌/◌, Bool, true, false, not, ◌||◌, Option, none, some, List, [], ◌∷◌, ◌++◌, ltb, leb,
  length, drop, max, if◌then◌else◌,
}

pub record OfflineQueue (Update : Type 0) : Type 0 where
  pub pending_appends : List Update
  pub ready : Bool
  pub compact_every : Option ℕ
  pub max_pending_appends : ℕ
  pub appends_since_compaction : ℕ
  pub compacting : Bool
  pub destroyed : Bool
  pub rows : List Update
  pub compactions : ℕ

abbrev pub default_compact_every : ℕ
default_compact_every = 200

abbrev pub default_max_pending : ℕ
default_max_pending = 1024

module _ {Update : Type 0} where
  unfoldable pub create_offline_queue : Bool → Option ℕ → ℕ → OfflineQueue Update
  create_offline_queue ready every limit = record {
    pending_appends = [];
    ready = ready;
    compact_every = every;
    max_pending_appends = max 1 limit;
    appends_since_compaction = 0;
    compacting = false;
    destroyed = false;
    rows = [];
    compactions = 0;
  }

  -- The call of `compact` up to its `await`; `compacted` is its end, with or without a fault.
  unfoldable pub compact : OfflineQueue Update → OfflineQueue Update
  compact q = if q.compacting || q.destroyed then q else elim q.compact_every [
    | none ↦ q
    | some every ↦ record q { compacting = true; compactions = q.compactions + 1 }
  ]

  unfoldable pub compacted : OfflineQueue Update → OfflineQueue Update
  compacted q = record q { compacting = false }

  -- The counter of appends, for a finite bound on it.
  unfoldable pub count_append : OfflineQueue Update → OfflineQueue Update
  count_append q =
      let n = q.appends_since_compaction + 1 in
      elim q.compact_every [
        | none ↦ record q { appends_since_compaction = n }
        | some every ↦
            if leb every n
            then compact (record q { appends_since_compaction = 0 })
            else record q { appends_since_compaction = n }
      ]

  unfoldable pub become_ready : OfflineQueue Update → OfflineQueue Update
  become_ready q = record q {
    ready = true;
    rows = q.rows ++ q.pending_appends;
    pending_appends = [];
  }

  unfoldable pub destroy : OfflineQueue Update → OfflineQueue Update
  destroy q = record q { destroyed = true; pending_appends = [] }

  module _ (merge : List Update → Option Update) where
    -- The merged backlog, or its newer half when the merge throws.
    unfoldable pub shrink : List Update → List Update
    shrink us = elim (merge us) [ some merged ↦ merged ∷ [] | none ↦ drop (length us / 2) us ]

    unfoldable pub push_pending : ℕ → List Update → Update → List Update
    push_pending limit pending update =
        let us = pending ++ (update ∷ []) in if ltb limit (length us) then shrink us else us

    unfoldable pub append : OfflineQueue Update → Update → OfflineQueue Update
    append q update =
        if q.ready then count_append (record q { rows = q.rows ++ (update ∷ []) }) else record q {
          pending_appends = push_pending q.max_pending_appends q.pending_appends update;
        }

pub data Call (Update : Type 0) : Type 0 where
  appending : Update → Call Update
  readied compaction_start compaction_end teardown : Call Update

module _ {Update : Type 0} (merge : List Update → Option Update) where
  unfoldable pub step : OfflineQueue Update → Call Update → OfflineQueue Update
  step q (appending update) = append merge q update
  step q readied = become_ready q
  step q compaction_start = compact q
  step q compaction_end = compacted q
  step q teardown = destroy q

  unfoldable pub run : OfflineQueue Update → List (Call Update) → OfflineQueue Update
  run q [] = q
  run q (c ∷ cs) = run (step q c) cs
