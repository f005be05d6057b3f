-- ===== src/AwarenessBridge.antt =====
-- src/utils/awareness-bridge.ts: the cache of validated peers that a subscription of
-- `onPeerChange` keeps. `awareness.getStates()` is an argument, and so are `validatePresenceState`
-- and the test for a `null` state.
pub mod Cache
mod Tests
use anvilkit_plugin_collab_y.Base.{
  ℕ, ◌+◌, Bool, true, false, not, ◌||◌, Option, none, some, List, [], ◌∷◌, ◌++◌, nat_eq,
  if◌then◌else◌,
}
use anvilkit_plugin_collab_y.Base.Dict.{Dict, keys, values, get, put, del, del_all}

-- The argument of a `change` event of the awareness.
pub record Changes : Type 0 where
  pub added : List ℕ
  pub updated : List ℕ
  pub removed : List ℕ

pub record Subscription (Peer : Type 0) : Type 0 where
  pub cache : Dict ℕ Peer
  pub seeded : Bool
  pub frame : Bool
  pub validation_failures : ℕ
  pub emitted : List (List Peer)

module _ {State Peer : Type 0} (validate : State → Option Peer) (is_null : State → Bool) where
  unfoldable pub refresh_client : Dict ℕ State → Subscription Peer → ℕ → Subscription Peer
  refresh_client states c client = elim (get client states) [
    | none ↦ record c { cache = del client c.cache }
    | some value ↦ elim (validate value) [
      | some peer ↦ record c { cache = put client peer c.cache }
      | none ↦ record c {
        cache = del client c.cache;
        validation_failures = c.validation_failures + (if is_null value then 0 else 1);
      }
    ]
  ]

  unfoldable pub refresh_all : Dict ℕ State → Subscription Peer → List ℕ → Subscription Peer
  refresh_all states c [] = c
  refresh_all states c (k ∷ ks) = refresh_all states (refresh_client states c k) ks

  unfoldable pub seed_all : Dict ℕ State → Subscription Peer → Subscription Peer
  seed_all states c = record (refresh_all states (record c { cache = [] }) (keys states)) {
    seeded = true;
  }

  -- The part of the handler for a delta.
  unfoldable pub apply_changes : Dict ℕ State → Changes → Subscription Peer → Subscription Peer
  apply_changes states changes c =
      let d = refresh_all states (refresh_all states c changes.added) changes.updated in
      record d { cache = del_all changes.removed d.cache }

  unfoldable pub update_cache :
      Dict ℕ State → Option Changes → Subscription Peer → Subscription Peer
  update_cache states none c = seed_all states c
  update_cache states (some changes) c =
      if c.seeded then apply_changes states changes c else seed_all states c

  -- The handler: the cache first, then a frame if none is asked for.
  unfoldable pub handler : Dict ℕ State → Option Changes → Subscription Peer → Subscription Peer
  handler states changes c = record (update_cache states changes c) { frame = true }

  unfoldable pub emit : Subscription Peer → Subscription Peer
  emit c = record c { frame = false; emitted = c.emitted ++ (values c.cache ∷ []) }

  unfoldable pub on_peer_change : Dict ℕ State → ℕ → Subscription Peer
  on_peer_change states failures =
      let c = seed_all states (record {
        cache = [];
        seeded = false;
        frame = false;
        validation_failures = failures;
        emitted = [];
      }) in
      record c { emitted = values c.cache ∷ [] }
