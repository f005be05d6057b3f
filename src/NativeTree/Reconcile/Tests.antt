-- ===== src/NativeTree/Reconcile/Tests.antt =====
-- Runs of the reconcile, and its theorems at concrete lists.
use anvilkit_plugin_collab_y.Base.{◌≡◌, refl, List, [], ◌∷◌, String, string_eq, keep}
use anvilkit_plugin_collab_y.NativeTree.Reconcile.{
  delete_at, insert_at, index_of, local_remove, removed_at, delete_locals, remove_phase,
  insert_position, add_one, add_phase, controlled_index, move, place_at, place, reorder_phase,
  reconcile_phases, reconcile_keyed_array, same_list,
}
use anvilkit_plugin_collab_y.Base.IdSet.{mem}
use anvilkit_plugin_collab_y.NativeTree.Reconcile.Alone.{reconcile_keyed_array-alone}
use anvilkit_plugin_collab_y.NativeTree.Reconcile.Remote.{foreign, reconcile_keyed_array-foreign}

abbrev base_ids : List String
base_ids = "a" ∷ "b" ∷ "c" ∷ []

-- `b` is dropped, `n` is new and `c` goes first.
abbrev desired_ids : List String
desired_ids = "c" ∷ "n" ∷ "a" ∷ []

-- Without other peers the array becomes the desired list.
alone : reconcile_keyed_array base_ids desired_ids base_ids ≡ desired_ids
unfolding reconcile_keyed_array reconcile_phases remove_phase delete_locals removed_at local_remove
    delete_at mem add_phase add_one insert_position insert_at index_of reorder_phase place place_at
    controlled_index move same_list
alone = refl

-- Another peer has put `x` behind `a`: it stays, at another index.
beside :
    reconcile_keyed_array base_ids desired_ids ("a" ∷ "x" ∷ "b" ∷ "c" ∷ [])
    ≡ "c" ∷ "n" ∷ "a" ∷ "x" ∷ []
unfolding reconcile_keyed_array reconcile_phases remove_phase delete_locals removed_at local_remove
    delete_at mem add_phase add_one insert_position insert_at index_of reorder_phase place place_at
    controlled_index move same_list
beside = refl

-- Another peer has removed `b` while `a` was moved behind `b` and `c`: the move is lost.
lost_move : reconcile_keyed_array base_ids ("b" ∷ "c" ∷ "a" ∷ []) ("a" ∷ "c" ∷ []) ≡ "a" ∷ "c" ∷ []
unfolding reconcile_keyed_array reconcile_phases remove_phase delete_locals removed_at local_remove
    delete_at mem add_phase add_one insert_position insert_at index_of reorder_phase place place_at
    controlled_index move same_list
lost_move = refl

reconcile_keyed_array-foreign_example :
    keep
      (foreign base_ids desired_ids)
      (reconcile_keyed_array base_ids desired_ids ("a" ∷ "x" ∷ "b" ∷ "c" ∷ []))
    ≡ keep (foreign base_ids desired_ids) ("a" ∷ "x" ∷ "b" ∷ "c" ∷ [])
reconcile_keyed_array-foreign_example =
    reconcile_keyed_array-foreign base_ids desired_ids ("a" ∷ "x" ∷ "b" ∷ "c" ∷ [])

reconcile_keyed_array-alone_example :
    reconcile_keyed_array base_ids desired_ids base_ids ≡ desired_ids
unfolding mem
reconcile_keyed_array-alone_example =
    reconcile_keyed_array-alone base_ids desired_ids (refl, (refl, (refl, tt)))
      (refl, (refl, (refl, tt)))
