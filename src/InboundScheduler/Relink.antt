-- ===== src/InboundScheduler/Relink.antt =====
-- What a merged scope means to the dispatch in src/plugin.ts, which applies an update to the
-- changed ids alone when its scope is known, not structural and without a relink.
use anvilkit_plugin_collab_y.Base.{
  ◌≡◌, ap, ap₂, ◌∙◌, false, ◌||◌, Option, none, some, List, String, string_eq, if◌then◌else◌, arith,
  is_some,
}
use anvilkit_plugin_collab_y.Base.Dict.{get}
use anvilkit_plugin_collab_y.Base.IdSet.{add_all}
use anvilkit_plugin_collab_y.InboundScheduler.{
  RemoteChange, merge_remote_change, Update, BufferedEntry, Scheduler, enqueue, fresh_entry,
  supersede,
}
use anvilkit_plugin_collab_y.InboundScheduler.Burst.{get-enqueue, enqueue-alive}

-- `changedIds` of `dispatchRemoteIR`: the ids, or `none` for the path over the whole document.
abbrev pub scoped_ids : Option RemoteChange → Option (List String)
scoped_ids none = none
scoped_ids (some c) = if c.structural || is_some c.relink then none else some c.ids

module _ {Doc Peer : Type 0} where
  abbrev pub pending_scope : Scheduler Doc Peer → String → Option (Option RemoteChange)
  pending_scope s room = elim (get room s.buffers) [ none ↦ none | some e ↦ some e.changed ]

  -- In a scheduler that was not destroyed, and whose buffer for a room is empty, two updates for
  -- the room with known scopes that are not structural leave a scope that the dispatch applies
  -- to the changed ids alone, also when the scope of one of them has a relink.
  pub coalesced-scoped :
      (s : Scheduler Doc Peer) (u v : Update Doc Peer) (a b : RemoteChange)
      → s.destroyed ≡ false
      → get u.room_key s.buffers ≡ none
      → v.room_key ≡ u.room_key
      → u.touched ≡ some a
      → v.touched ≡ some b
      → a.structural ≡ false
      → b.structural ≡ false
      → (scope : RemoteChange) × (pending_scope (enqueue (enqueue s u) v) u.room_key
          ≡ some (some scope))
        × (scoped_ids (some scope) ≡ some scope.ids)
  unfolding merge_remote_change
  coalesced-scoped s u v a b h g r p q x y = (
    record { ids = add_all b.ids a.ids; structural = a.structural || b.structural; relink = none },
    ap scope_of twice ∙ ap₂ (λ c d. some (merge_remote_change c d)) p q,
    ground (arith, x, y),
  )
    where
      scope_of : Option (BufferedEntry Doc Peer) → Option (Option RemoteChange)
      scope_of o = elim o [ none ↦ none | some e ↦ some e.changed ]

      once : get u.room_key (enqueue s u).buffers ≡ some (fresh_entry u)
      once =
          ground
            (arith, get-enqueue s u u.room_key h, g, string_eq.same_key_iff u.room_key u.room_key)

      twice : get u.room_key (enqueue (enqueue s u) v).buffers ≡ some (supersede (fresh_entry u) v)
      twice = ground (
        arith,
        get-enqueue (enqueue s u) v u.room_key (enqueue-alive s u h),
        once,
        string_eq.same_key_iff v.room_key u.room_key,
        r,
      )
