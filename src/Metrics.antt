-- ===== src/Metrics.antt =====
-- src/utils/metrics.ts: the counters and the sliding windows of the telemetry. A clock reading is
-- an argument; the percentiles of a snapshot, which work on doubles, are left out, and so is the
-- text of a snapshot id.
pub mod Windows
mod Tests
use anvilkit_plugin_collab_y.Base.{
  ℕ, suc, ◌+◌, ◌-◌, Bool, true, false, not, ◌&&◌, Option, none, some, or_else, List, [], ◌∷◌, ◌++◌,
  String, string_eq, length, drop, if◌then◌else◌, ltb,
}
use anvilkit_plugin_collab_y.Base.Dict.{Dict, get, put}
use anvilkit_plugin_collab_y.Base.IdSet.{add}
use anvilkit_plugin_collab_y.Presence.Doubles.{finite, less, zero_double}

abbrev pub latency_window_size : ℕ
latency_window_size = 200

abbrev pub timing_window_size : ℕ
timing_window_size = 200

abbrev pub churn_window_ms : ℕ
churn_window_ms = 300000

abbrev pub inbound_coalesced_window_ms : ℕ
inbound_coalesced_window_ms = 300000

-- A timing is the bit pattern of a double.
pub record Metrics : Type 0 where
  pub save_count : ℕ
  pub dispatch_failures : ℕ
  pub presence_validation_failures : ℕ
  pub degraded : Bool
  pub degraded_reasons : List String
  pub snapshot_counter : ℕ
  pub inbound_coalesced_events : List (ℕ × ℕ)
  pub latency_window : List ℕ
  pub churn_timestamps : List ℕ
  pub timing_windows : Dict String (List ℕ)

abbrev pub create_metrics_state : Metrics
create_metrics_state = record {
  save_count = 0;
  dispatch_failures = 0;
  presence_validation_failures = 0;
  degraded = false;
  degraded_reasons = [];
  snapshot_counter = 0;
  inbound_coalesced_events = [];
  latency_window = [];
  churn_timestamps = [];
  timing_windows = [];
}

-- `window.push(x)`, and a `shift` beyond the size.
unfoldable pub push_bounded : ℕ → ℕ → List ℕ → List ℕ
push_bounded size x xs =
    let pushed = xs ++ (x ∷ []) in if ltb size (length pushed) then drop 1 pushed else pushed

unfoldable pub record_timing : Metrics → String → ℕ → Metrics
record_timing m kind ms =
    if finite ms && not (less ms zero_double)
    then record m {
      timing_windows =
          put kind (push_bounded timing_window_size ms (or_else (get kind m.timing_windows) []))
            m.timing_windows;
    }
    else m

-- The entries at the front that are older than the cutoff go.
unfoldable pub trim_before : {A : Type 0} → (A → ℕ) → ℕ → List A → List A
trim_before at cutoff [] = []
trim_before at cutoff (x ∷ xs) = if ltb (at x) cutoff then trim_before at cutoff xs else x ∷ xs

unfoldable pub trim_churn_window : ℕ → List ℕ → List ℕ
trim_churn_window now = trim_before (λ t. t) (now - churn_window_ms)

unfoldable pub trim_inbound_window : ℕ → List (ℕ × ℕ) → List (ℕ × ℕ)
trim_inbound_window now = trim_before (λ e. e.0) (now - inbound_coalesced_window_ms)

unfoldable pub record_observation_latency : Metrics → ℕ → ℕ → Metrics
record_observation_latency m now saved_at = if ltb now saved_at then m else record m {
  latency_window = push_bounded latency_window_size (now - saved_at) m.latency_window;
}

unfoldable pub inc_save_count : Metrics → Metrics
inc_save_count m = record m { save_count = m.save_count + 1 }

unfoldable pub inc_dispatch_failure : Metrics → Metrics
inc_dispatch_failure m = record m { dispatch_failures = m.dispatch_failures + 1 }

unfoldable pub inc_presence_validation_failure : Metrics → Metrics
inc_presence_validation_failure m = record m {
  presence_validation_failures = m.presence_validation_failures + 1;
}

unfoldable pub inc_churn : Metrics → ℕ → Metrics
inc_churn m now = record m {
  churn_timestamps = trim_churn_window now (m.churn_timestamps ++ (now ∷ []));
}

-- Reasons are added and never taken away.
unfoldable pub set_degraded : Metrics → Bool → Option String → Metrics
set_degraded m value reason = record m {
  degraded = value;
  degraded_reasons = elim reason [
    | none ↦ m.degraded_reasons
    | some r ↦ if value then add r m.degraded_reasons else m.degraded_reasons
  ];
}

unfoldable pub inc_inbound_coalesced : Metrics → ℕ → ℕ → Metrics
inc_inbound_coalesced m now n =
    if ltb 0 n
    then record m {
      inbound_coalesced_events =
          trim_inbound_window now (m.inbound_coalesced_events ++ ((now, n) ∷ []));
    }
    else m

abbrev pub sum_of : List (ℕ × ℕ) → ℕ
sum_of [] = 0
sum_of ((ts, n) ∷ es) = n + sum_of es

pub record MetricsSnapshot : Type 0 where
  pub save_count : ℕ
  pub dispatch_failures : ℕ
  pub awareness_churn : ℕ
  pub sync_latency_samples : ℕ
  pub degraded : Bool
  pub degraded_reasons : List String
  pub presence_validation_failures : ℕ
  pub inbound_coalesced : ℕ

-- `snapshot`, with the windows that it trims on the way.
unfoldable pub snapshot : Metrics → ℕ → Metrics × MetricsSnapshot
snapshot m now =
    let churn = trim_churn_window now m.churn_timestamps in
    let inbound = trim_inbound_window now m.inbound_coalesced_events in
    (
      record m { churn_timestamps = churn; inbound_coalesced_events = inbound },
      record {
        save_count = m.save_count;
        dispatch_failures = m.dispatch_failures;
        awareness_churn = length churn;
        sync_latency_samples = length m.latency_window;
        degraded = m.degraded;
        degraded_reasons = m.degraded_reasons;
        presence_validation_failures = m.presence_validation_failures;
        inbound_coalesced = sum_of inbound;
      },
    )
