-- ===== src/AwarenessBridge/Cache.antt =====
-- The cache that is kept up by deltas is the one that a validation of every peer gives.
use anvilkit_plugin_collab_y.Base.{
  ℕ, ◌≡◌, refl, ap, ◌∙◌, Bool, true, false, ◌||◌, Option, none, some, List, [], ◌∷◌, nat_eq, ◌==◌,
  if◌then◌else◌, arith, if-both, Option-cases, beq-cases, inl, inr,
}
use anvilkit_plugin_collab_y.Base.Dict.{
  Dict, keys, get, put, del, get-put, get-del, get-del_all, mem-keys,
}
use anvilkit_plugin_collab_y.Base.IdSet.{mem}
use anvilkit_plugin_collab_y.AwarenessBridge.{
  Changes, Subscription, refresh_client, refresh_all, seed_all, apply_changes, update_cache,
  handler, on_peer_change,
}

-- What y-protocols documents of a `change` event: a client whose state is another one now is
-- listed, and a client listed as removed has no state.
pub record Delta {State : Type 0} (old new : Dict ℕ State) (changes : Changes) : Type 0 where
  pub listed :
      (k : ℕ)
      → (mem k changes.added || (mem k changes.updated || mem k changes.removed)) ≡ false
      → get k new ≡ get k old
  pub gone : (k : ℕ) → mem k changes.removed ≡ true → get k new ≡ none

module _ {State Peer : Type 0} (validate : State → Option Peer) (is_null : State → Bool) where
  -- A client's peer as a full validation has it.
  abbrev pub peer_of : Option State → Option Peer
  peer_of none = none
  peer_of (some value) = validate value

  cache-refresh_client :
      (states : Dict ℕ State) (c : Subscription Peer) (client : ℕ)
      → (refresh_client validate is_null states c client).cache
        ≡ elim (peer_of (get client states)) [
          | none ↦ del client c.cache
          | some peer ↦ put client peer c.cache
        ]
  unfolding refresh_client
  cache-refresh_client states c client = elim (Option-cases (get client states)) [
    | inl g ↦ rw (g, refresh_client) refl
    | inr (v, g) ↦ elim (Option-cases (validate v)) [
      | inl h ↦ rw (g, refresh_client, h) refl
      | inr (p, h) ↦ rw (g, refresh_client, h) refl
    ]
  ]

  get-refresh_client :
      (states : Dict ℕ State) (c : Subscription Peer) (client k : ℕ)
      → get k (refresh_client validate is_null states c client).cache
        ≡ (if client == k then peer_of (get k states) else get k c.cache)
  get-refresh_client states c client k =
      ap (get k) (cache-refresh_client states c client)
      ∙ elim (Option-cases (peer_of (get client states))) [
        | inl g ↦ rw g (elim (beq-cases client k) [
          | inl (t, q) ↦ ground (arith, get-del k client c.cache, t, g, here q)
          | inr (f, q) ↦ ground (arith, get-del k client c.cache, f)
        ])
        | inr (p, g) ↦ rw g (elim (beq-cases client k) [
          | inl (t, q) ↦ ground (arith, get-put k client p c.cache, t, g, here q)
          | inr (f, q) ↦ ground (arith, get-put k client p c.cache, f)
        ])
      ]
    where
      here : client ≡ k → peer_of (get client states) ≡ peer_of (get k states)
      here q = ap (λ i. peer_of (get i states)) q

  get-refresh_all :
      (states : Dict ℕ State) (ks : List ℕ) (c : Subscription Peer) (k : ℕ)
      → get k (refresh_all validate is_null states c ks).cache
        ≡ (if mem k ks then peer_of (get k states) else get k c.cache)
  unfolding refresh_all mem
  get-refresh_all states [] c k = refl
  get-refresh_all states (j ∷ ks) c k = ground (
    arith,
    get-refresh_all states ks (refresh_client validate is_null states c j) k,
    get-refresh_client states c j k,
  )

  Right : Dict ℕ State → Subscription Peer → Type 0
  Right states c = (k : ℕ) → get k c.cache ≡ peer_of (get k states)

  seed_all-Right :
      (states : Dict ℕ State) (c : Subscription Peer)
      → Right states (seed_all validate is_null states c)
  unfolding Right seed_all get
  seed_all-Right states c k =
      ground
        (arith, get-refresh_all states (keys states) (record c { cache = [] }) k, mem-keys k states)

  apply_changes-Right :
      (old new : Dict ℕ State) (changes : Changes) (c : Subscription Peer)
      → Delta old new changes
      → Right old c
      → Right new (apply_changes validate is_null new changes c)
  unfolding Right apply_changes
  apply_changes-Right old new changes c d r k =
      let added = refresh_all validate is_null new c changes.added in
      ground (
        arith,
        get-del_all k changes.removed
            (refresh_all validate is_null new added changes.updated).cache,
        get-refresh_all new changes.updated added k,
        get-refresh_all new changes.added c k,
        kept,
        d.gone k,
        r k,
      )
    where
      kept :
          (mem k changes.added || (mem k changes.updated || mem k changes.removed)) ≡ false
          → peer_of (get k new) ≡ peer_of (get k old)
      kept h = ap peer_of (d.listed k h)

  update_cache-Right :
      (old new : Dict ℕ State) (changes : Changes) (c : Subscription Peer)
      → Delta old new changes
      → Right old c
      → Right new (update_cache validate is_null new (some changes) c)
  unfolding update_cache
  update_cache-Right old new changes c d r =
      if-both (Right new) c.seeded _ _ (λ t. apply_changes-Right old new changes c d r)
        (λ f. seed_all-Right new c)

  -- Events one after another, each a delta from the states before it.
  abbrev pub Deltas : Dict ℕ State → List (Dict ℕ State × Changes) → Type 0
  Deltas old [] = Unit
  Deltas old ((new, changes) ∷ es) = Delta old new changes × Deltas new es

  unfoldable pub handle_all : List (Dict ℕ State × Changes) → Subscription Peer → Subscription Peer
  handle_all [] c = c
  handle_all ((new, changes) ∷ es) c = handle_all es (handler validate is_null new (some changes) c)

  abbrev pub latest : Dict ℕ State → List (Dict ℕ State × Changes) → Dict ℕ State
  latest old [] = old
  latest old ((new, changes) ∷ es) = latest new es

  handle_all-Right :
      (es : List (Dict ℕ State × Changes)) (old : Dict ℕ State) (c : Subscription Peer)
      → Deltas old es
      → Right old c
      → Right (latest old es) (handle_all es c)
  unfolding handle_all handler Right
  handle_all-Right [] old c d r = r
  handle_all-Right ((new, changes) ∷ es) old c d r =
      handle_all-Right es new (handler validate is_null new (some changes) c) d.1
        (update_cache-Right old new changes c d.0 r)

  -- After a subscription and any events, each a delta from the states before it, the cache has
  -- for each client what a validation of its state now gives: a peer if the state is there and
  -- valid, and else nothing. The deltas do what a validation of every client would.
  pub get-handle_all :
      (states : Dict ℕ State) (failures : ℕ) (es : List (Dict ℕ State × Changes)) (k : ℕ)
      → Deltas states es
      → get k (handle_all es (on_peer_change validate is_null states failures)).cache
        ≡ peer_of (get k (latest states es))
  unfolding on_peer_change Right
  get-handle_all states failures es k d =
      handle_all-Right es states (on_peer_change validate is_null states failures) d
        (seed_all-Right states _) k
