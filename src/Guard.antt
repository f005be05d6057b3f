-- ===== src/Guard.antt =====
-- src/utils/remote-guard.ts: the re-entrant guard that is held while a remote update is
-- dispatched. The state of the closure is a record, a method returns the new record, and
-- `nowMs()` is an argument.
pub mod Depth
pub mod Echo
mod Tests
use anvilkit_plugin_collab_y.Base.{
  ℕ, ◌+◌, ◌-◌, ◌≤◌, Bool, true, false, not, Option, none, some, List, [], ◌∷◌, ltb, if◌then◌else◌,
  nat_eq,
}
use anvilkit_plugin_collab_y.Base.IdSet.{mem, add, discard}

pub record Guard : Type 0 where
  pub grace_ms : ℕ
  pub depth : ℕ
  pub next_token : ℕ
  pub open_tokens : List ℕ
  pub closed_at : Option ℕ
  pub sync_suppress_in_flight : ℕ
  pub last_dispatch_sync_suppress : ℕ

unfoldable pub create_remote_dispatch_guard : Option ℕ → Guard
create_remote_dispatch_guard grace = record {
  grace_ms = elim grace [ none ↦ 0 | some g ↦ g ];
  depth = 0;
  next_token = 1;
  open_tokens = [];
  closed_at = none;
  sync_suppress_in_flight = 0;
  last_dispatch_sync_suppress = 0;
}

unfoldable pub begin : Guard → Guard × ℕ
begin g = (
  record g {
    next_token = g.next_token + 1;
    open_tokens = add g.next_token g.open_tokens;
    sync_suppress_in_flight = if ltb 0 g.depth then g.sync_suppress_in_flight else 0;
    depth = g.depth + 1;
  },
  g.next_token,
)

-- `depth -= 1; if (depth <= 0) …`: the truncated subtraction is the clamp at zero.
leave : Guard → ℕ → ℕ → Guard
leave g token now =
    if ltb 0 (g.depth - 1)
    then record g { open_tokens = discard token g.open_tokens; depth = g.depth - 1 }
    else record g {
      open_tokens = discard token g.open_tokens;
      depth = 0;
      closed_at = some now;
      last_dispatch_sync_suppress = g.sync_suppress_in_flight;
    }

unfoldable pub end_dispatch : Guard → ℕ → ℕ → Guard
unfolding leave
end_dispatch g token now = if mem token g.open_tokens then leave g token now else g

unfoldable pub note_suppressed : Guard → Guard
note_suppressed g =
    if ltb 0 g.depth
    then record g { sync_suppress_in_flight = g.sync_suppress_in_flight + 1 }
    else g

unfoldable pub consumed_sync_echo : Guard → Bool
consumed_sync_echo g = ltb 0 g.last_dispatch_sync_suppress

unfoldable pub is_active : Guard → Bool
is_active g = ltb 0 g.depth

-- `now - closedAt < graceMs` over a clock that may lie before `closedAt`.
closed_within : ℕ → ℕ → Option ℕ → Bool
closed_within grace now none = false
closed_within grace now (some closed) = ltb now (closed + grace)

unfoldable pub within_grace_window : Guard → ℕ → Bool
unfolding closed_within
within_grace_window g now =
    if ltb 0 g.depth
    then true
    else if ltb 0 g.grace_ms
    then closed_within g.grace_ms now g.closed_at
    else false

-- A history of calls; `finish` carries the token and the clock reading of its `end`.
pub data Call : Type 0 where
  start : Call
  finish : ℕ → ℕ → Call
  suppress : Call

unfoldable pub step : Guard → Call → Guard
step g start = (begin g).0
step g (finish token now) = end_dispatch g token now
step g suppress = note_suppressed g

unfoldable pub run : Guard → List Call → Guard
run g [] = g
run g (c ∷ cs) = run (step g c) cs
