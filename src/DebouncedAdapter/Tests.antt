-- ===== src/DebouncedAdapter/Tests.antt =====
-- A history of the debounced adapter, and its theorems there. Documents, metadata, ids and
-- reasons are texts.
use anvilkit_plugin_collab_y.Base.{
  ◌+◌, ◌≡◌, refl, true, false, none, List, [], ◌∷◌, ◌++◌, String, length, ltb, if◌then◌else◌,
  is_some, nat_eq,
}
use anvilkit_plugin_collab_y.Base.Dict.{get, put, del}
use anvilkit_plugin_collab_y.DebouncedAdapter.{
  throws, promises, Debouncer, Event, saving, tick, answers, teardown, resolved,
  create_debounced_adapter, join, save, write, flush, answer, destroy, step, run,
}
use anvilkit_plugin_collab_y.DebouncedAdapter.Promises.{settled_once, places}
use anvilkit_plugin_collab_y.DebouncedAdapter.Latest.{
  latest_wins, timer_iff_pending, saves, last_save,
}

abbrev history : List (Event String String String String)
history =
    saving "a" "m"
    ∷ saving "b" "m"
    ∷ tick promises
    ∷ saving "c" "m"
    ∷ answers 1 (resolved "id")
    ∷ teardown
    ∷ saving "d" "m"
    ∷ []

abbrev after_history : Debouncer String String String String
after_history = run create_debounced_adapter history

four_settled : length after_history.settled ≡ 4
unfolding run step create_debounced_adapter save join write flush answer destroy get put del
four_settled = refl

settled_once_example : places 2 after_history ≡ (if ltb 2 after_history.issued then 1 else 0)
settled_once_example = settled_once history 2

timer_iff_pending_example :
    (is_some after_history.pending ≡ after_history.timer)
    × (after_history.destroyed ≡ true → after_history.timer ≡ false)
timer_iff_pending_example = timer_iff_pending history

abbrev new_adapter : Debouncer String String String String
new_adapter = create_debounced_adapter

new_alive : new_adapter.destroyed ≡ false
unfolding create_debounced_adapter
new_alive = refl

latest_wins_example :
    let e = step (run new_adapter (saves (("a", "m") ∷ ("b", "n") ∷ []))) (tick (throws "quota")) in
    (e.written ≡ new_adapter.written ++ (last_save ("a", "m") (("b", "n") ∷ []) ∷ []))
    × (e.transport_writes ≡ new_adapter.transport_writes + 1)
    × (e.save_calls ≡ new_adapter.save_calls + 2)
    × (e.pending ≡ none)
latest_wins_example =
    latest_wins new_adapter ("a", "m") (("b", "n") ∷ []) (throws "quota") new_alive
