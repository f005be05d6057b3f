-- ===== src/NativeTree/Reconcile.antt =====
-- `reconcileKeyedArray`: the local change of a child list, from `base` to `desired`, on the live
-- contents of a shared array. The array is the list `target`, on which `insert` and `delete`
-- act at an index, and `work` is the mirror on which the indices are found.
pub mod Alone
pub mod Lists
pub mod Mirror
pub mod Placing
pub mod Remote
mod Tests
use anvilkit_plugin_collab_y.Base.{
  ℕ, zero, suc, ◌+◌, ◌-◌, Bool, true, false, not, ◌&&◌, Option, none, some, List, [], ◌∷◌, String,
  ◌==◌, string_eq, if◌then◌else◌, ltb, length, get_elem?, keep,
}
use anvilkit_plugin_collab_y.Base.IdSet.{mem}

-- `xs.delete(i, 1)` and `xs.insert(i, [x])`, and `splice` on the mirror.
unfoldable pub delete_at : ℕ → List String → List String
delete_at i [] = []
delete_at zero (x ∷ xs) = xs
delete_at (suc i) (x ∷ xs) = x ∷ delete_at i xs

unfoldable pub insert_at : ℕ → String → List String → List String
insert_at zero x xs = x ∷ xs
insert_at (suc i) x [] = x ∷ []
insert_at (suc i) x (y ∷ ys) = y ∷ insert_at i x ys

abbrev pub above : Option ℕ → Option ℕ
above none = none
above (some i) = some (suc i)

-- `xs.indexOf(x)`
unfoldable pub index_of : String → List String → Option ℕ
index_of x [] = none
index_of x (y ∷ ys) = if y == x then some 0 else above (index_of x ys)

-- Equal lengths and equal elements.
unfoldable pub same_list : List String → List String → Bool
same_list [] [] = true
same_list [] (y ∷ ys) = false
same_list (x ∷ xs) [] = false
same_list (x ∷ xs) (y ∷ ys) = x == y && same_list xs ys

pub record Arrays : Type 0 where
  pub target : List String
  pub work : List String

abbrev pub insert_both : ℕ → String → Arrays → Arrays
insert_both i x a = record { target = insert_at i x a.target; work = insert_at i x a.work }

abbrev pub delete_both : ℕ → Arrays → Arrays
delete_both i a = record { target = delete_at i a.target; work = delete_at i a.work }

module _ (base desired : List String) where
  -- In the base and no longer desired.
  unfoldable pub local_remove : String → Bool
  local_remove id = mem id base && not (mem id desired)

  unfoldable pub removed_at : List String → ℕ → Bool
  removed_at cur i = elim (get_elem? cur i) [ none ↦ false | some id ↦ local_remove id ]

  -- The loop that deletes from the highest index down.
  unfoldable pub delete_locals : List String → ℕ → List String → List String
  delete_locals cur zero target = target
  delete_locals cur (suc i) target =
      delete_locals cur i (if removed_at cur i then delete_at i target else target)

  unfoldable pub remove_phase : List String → Arrays
  remove_phase cur = record {
    target = delete_locals cur (length cur) cur;
    work = keep (λ id. not (local_remove id)) cur;
  }

  -- Behind the nearest preceding desired id that is there; `before` has them nearest first.
  unfoldable pub insert_position : List String → List String → ℕ
  insert_position work [] = 0
  insert_position work (p ∷ ps) = elim (index_of p work) [
    | some i ↦ i + 1
    | none ↦ insert_position work ps
  ]

  -- `workSet` has the elements of `work`: the two are changed together.
  unfoldable pub add_one : List String → String → Arrays → Arrays
  add_one before id a =
      if mem id base
      then a
      else if mem id a.work
      then a
      else insert_both (insert_position a.work before) id a

  unfoldable pub add_phase : List String → List String → Arrays → Arrays
  add_phase before [] a = a
  add_phase before (id ∷ ids) a = add_phase (id ∷ before) ids (add_one before id a)

  -- The index in `work` of the element number `slot` among the desired ones.
  unfoldable pub controlled_index : List String → ℕ → Option ℕ
  controlled_index [] slot = none
  controlled_index (x ∷ xs) slot =
      if mem x desired
      then elim slot [ zero ↦ some 0 | suc s ↦ above (controlled_index xs s) ]
      else above (controlled_index xs slot)

  -- `wantId` is moved from one index to the slot's.
  unfoldable pub move : ℕ → ℕ → String → Arrays → Arrays
  move from_index abs_index want a =
      insert_both (if ltb from_index abs_index then abs_index - 1 else abs_index) want
        (delete_both from_index a)

  -- The wanted id is moved to the slot's index, unless it is there already or nowhere.
  unfoldable pub place_at : ℕ → String → Arrays → Arrays
  place_at abs_index want a = elim (get_elem? a.work abs_index) [
    | none ↦ a
    | some there ↦ if there == want then a else elim (index_of want a.work) [
      | none ↦ a
      | some from_index ↦ move from_index abs_index want a
    ]
  ]

  unfoldable pub place : ℕ → String → Arrays → Arrays
  place slot want a = elim (controlled_index a.work slot) [
    | none ↦ a
    | some abs_index ↦ place_at abs_index want a
  ]

  unfoldable pub reorder_phase : ℕ → List String → Arrays → Arrays
  reorder_phase slot [] a = a
  reorder_phase slot (id ∷ ids) a = reorder_phase (suc slot) ids (place slot id a)

  -- The phases in order, on an array that holds `cur`.
  unfoldable pub reconcile_phases : List String → Arrays
  reconcile_phases cur = reorder_phase 0 desired (add_phase [] desired (remove_phase cur))

  unfoldable pub reconcile_keyed_array : List String → List String
  reconcile_keyed_array cur =
      if same_list cur desired
      then cur
      else elim cur [ [] ↦ desired | x ∷ xs ↦ (reconcile_phases (x ∷ xs)).target ]
