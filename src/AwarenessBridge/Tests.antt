-- ===== src/AwarenessBridge/Tests.antt =====
-- A subscription and one event, and the theorem on the cache there. A state is a number, valid
-- when it is above 0, and the peer is the number itself.
use anvilkit_plugin_collab_y.Base.{
  ℕ, ◌≡◌, refl, Bool, true, false, Option, none, some, [], ◌∷◌, nat_eq, ltb, if◌then◌else◌, arith,
}
use anvilkit_plugin_collab_y.Base.Dict.{Dict, get, put, del, del_all}
use anvilkit_plugin_collab_y.Base.IdSet.{mem}
use anvilkit_plugin_collab_y.AwarenessBridge.{
  Changes, refresh_client, refresh_all, seed_all, apply_changes, update_cache, handler,
  on_peer_change,
}
use anvilkit_plugin_collab_y.AwarenessBridge.Cache.{
  Delta, handle_all, get-handle_all, peer_of, latest,
}

abbrev positive : ℕ → Option ℕ
positive n = if ltb 0 n then some n else none

abbrev is_zero : ℕ → Bool
is_zero n = if ltb 0 n then false else true

abbrev before : Dict ℕ ℕ
before = (1, 5) ∷ (2, 7) ∷ []

-- Client 1 has gone, client 2 is invalid, client 3 is new.
abbrev now : Dict ℕ ℕ
now = (2, 0) ∷ (3, 9) ∷ []

abbrev change : Changes
change = record { added = 3 ∷ []; updated = 2 ∷ []; removed = 1 ∷ [] }

one_peer :
    (handle_all positive is_zero
      ((now, change) ∷ [])
      (on_peer_change positive is_zero before 0)).cache
    ≡ (3, 9) ∷ []
unfolding handle_all handler update_cache apply_changes on_peer_change seed_all refresh_all
    refresh_client get put del del_all
one_peer = refl

change-Delta : Delta before now change
unfolding mem get
change-Delta = record { listed = λ k h. ground (arith, h); gone = λ k h. ground (arith, h) }

get-handle_all_example :
    get 2
      (handle_all positive is_zero
        ((now, change) ∷ [])
        (on_peer_change positive is_zero before 0)).cache
    ≡ peer_of positive is_zero (get 2 (latest positive is_zero before ((now, change) ∷ [])))
get-handle_all_example =
    get-handle_all positive is_zero before 0 ((now, change) ∷ []) 2 (change-Delta, tt)
