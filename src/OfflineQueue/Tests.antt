-- ===== src/OfflineQueue/Tests.antt =====
-- A history of the offline queue, and its theorems there. A document is a list of texts, an
-- update appends such a list, and updates are merged by joining them.
use anvilkit_plugin_collab_y.Base.{
  ◌≡◌, ◌∙◌, sym, ap, refl, false, Option, none, some, List, [], ◌∷◌, ◌++◌, String,
}
use anvilkit_plugin_collab_y.OfflineQueue.{
  Call, appending, create_offline_queue, shrink, push_pending, append, step, run,
}
use anvilkit_plugin_collab_y.OfflineQueue.Lossless.{
  Merges, apply_all, apply_all-appended, effect, appended,
}

abbrev merged_all : List (List String) → List String
merged_all [] = []
merged_all (u ∷ us) = u ++ merged_all us

abbrev join_some : List (List String) → Option (List String)
join_some us = some (merged_all us)

append_assoc : (as' bs cs : List String) → (as' ++ bs) ++ cs ≡ as' ++ (bs ++ cs)
append_assoc [] bs cs = refl
append_assoc (a ∷ as') bs cs = ap (λ xs. a ∷ xs) (append_assoc as' bs cs)

append_nil : (as' : List String) → as' ++ [] ≡ as'
append_nil [] = refl
append_nil (a ∷ as') = ap (λ xs. a ∷ xs) (append_nil as')

join_effect :
    (d : List String) (us : List (List String))
    → d ++ merged_all us ≡ apply_all (λ x y. x ++ y) d us
unfolding apply_all
join_effect d [] = append_nil d
join_effect d (u ∷ us) = sym (append_assoc d u (merged_all us)) ∙ join_effect (d ++ u) us

merged_all-Merges : Merges (λ (x y : List String). x ++ y) join_some
merged_all-Merges = record { merged = merged_all; succeeds = λ us. refl; same_effect = join_effect }

-- The third append overflows a buffer of two.
abbrev history : List (Call (List String))
history =
    appending ("a" ∷ []) ∷ appending ("b" ∷ []) ∷ appending ("c" ∷ []) ∷ appending ("d" ∷ []) ∷ []

overflow :
    (run join_some (create_offline_queue false none 2) history).pending_appends
    ≡ ("a" ∷ "b" ∷ "c" ∷ []) ∷ ("d" ∷ []) ∷ []
unfolding run step append push_pending shrink create_offline_queue
overflow = refl

apply_all-appended_example :
    effect
      (λ (x y : List String). x ++ y)
      join_some
      merged_all-Merges
      []
      (run join_some (create_offline_queue false none 2) history)
    ≡ apply_all
        (λ (x y : List String). x ++ y)
        []
        (appended (λ (x y : List String). x ++ y) join_some merged_all-Merges history)
apply_all-appended_example =
    apply_all-appended (λ (x y : List String). x ++ y) join_some merged_all-Merges [] false none 2
      history refl
