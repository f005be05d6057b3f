-- ===== src/NativeTree/Events/Described.antt =====
-- What a batch of events is classified as, by what each event says and not by their order.
use anvilkit_plugin_collab_y.Base.{
  ◌≡◌, refl, Bool, true, false, not, ◌&&◌, ◌||◌, Option, none, some, List, [], ◌∷◌, String,
  string_eq, ◌==◌, any, arith,
}
use anvilkit_plugin_collab_y.Base.IdSet.{mem, mem-add}
use anvilkit_plugin_collab_y.LiveIr.{DerivedRelink, removed_of}
use anvilkit_plugin_collab_y.NativeTree.Events.{
  Segment, node_key, name, index, Action, added, updated, deleted, TreeEvent, root_event,
  deep_event, EventChanges, no_changes, is_document_key, is_child_ids, on_node, on_key, on_keys,
  on_event, on_events, is_empty, has_relink, derived_of, derive_changed_node_ids,
}

abbrev pub is_node : String → Segment → Bool
is_node k (node_key id) = id == k
is_node k _ = false

abbrev pub is_deleted : Action → Bool
is_deleted deleted = true
is_deleted _ = false

-- What one event says of a node, and of the document.
abbrev pub touches : String → TreeEvent → Bool
touches k (root_event ks) = any (λ e. is_node k e.0) ks
touches k (deep_event first path) = is_node k first

abbrev pub adds : String → TreeEvent → Bool
adds k (root_event ks) = any (λ e. is_node k e.0 && not (is_deleted e.1)) ks
adds k (deep_event first path) = false

abbrev pub removes : String → TreeEvent → Bool
removes k (root_event ks) = any (λ e. is_node k e.0 && is_deleted e.1) ks
removes k (deep_event first path) = false

abbrev pub relists : String → TreeEvent → Bool
relists k (root_event ks) = false
relists k (deep_event first path) = is_node k first && any is_child_ids path

abbrev pub changes_document : TreeEvent → Bool
changes_document (root_event ks) = any (λ e. is_document_key e.0) ks
changes_document (deep_event first path) = false

abbrev pub added_of : Option DerivedRelink → List String
added_of none = []
added_of (some r) = r.added_ids

abbrev pub parents_of : Option DerivedRelink → List String
parents_of none = []
parents_of (some r) = r.parents_touched

-- The sets after some events, by the sets before and what the events say.
abbrev Extends : String → EventChanges → EventChanges → (t a r p d : Bool) → Type 0
Extends k c e t a r p d =
    (mem k e.ids ≡ (mem k c.ids || t))
    × (mem k e.added_ids ≡ (mem k c.added_ids || a))
    × (mem k e.removed_ids ≡ (mem k c.removed_ids || r))
    × (mem k e.parents_touched ≡ (mem k c.parents_touched || p))
    × (e.structural ≡ (c.structural || d))

on_key-Extends :
    (k : String) (c : EventChanges) (s : Segment) (a : Action)
    → Extends k c
        (on_key c s a)
        (is_node k s)
        (is_node k s && not (is_deleted a))
        (is_node k s && is_deleted a)
        false
        (is_document_key s)
unfolding on_key on_node is_document_key
on_key-Extends k c (node_key id) deleted =
    ground (arith, mem-add k id c.ids, mem-add k id c.removed_ids)
on_key-Extends k c (node_key id) added =
    ground (arith, mem-add k id c.ids, mem-add k id c.added_ids)
on_key-Extends k c (node_key id) updated =
    ground (arith, mem-add k id c.ids, mem-add k id c.added_ids)
on_key-Extends k c (name s) a = ground (arith)
on_key-Extends k c (index n) a = ground (arith)

on_keys-Extends :
    (k : String) (c : EventChanges) (ks : List (Segment × Action))
    → let e = root_event ks in
      Extends k c
        (on_keys c ks)
        (touches k e)
        (adds k e)
        (removes k e)
        (relists k e)
        (changes_document e)
unfolding on_keys
on_keys-Extends k c [] = ground arith
on_keys-Extends k c ((s, a) ∷ ks) =
    ground (arith, on_key-Extends k c s a, on_keys-Extends k (on_key c s a) ks)

on_event-Extends :
    (k : String) (c : EventChanges) (e : TreeEvent)
    → Extends k c
        (on_event c e)
        (touches k e)
        (adds k e)
        (removes k e)
        (relists k e)
        (changes_document e)
unfolding on_event
on_event-Extends k c (root_event ks) = on_keys-Extends k c ks
on_event-Extends k c (deep_event (node_key id) path) =
    ground (arith, mem-add k id c.ids, mem-add k id c.parents_touched)
on_event-Extends k c (deep_event (name s) path) = ground arith
on_event-Extends k c (deep_event (index n) path) = ground arith

on_events-Extends :
    (k : String) (c : EventChanges) (es : List TreeEvent)
    → Extends k c
        (on_events c es)
        (any (touches k) es)
        (any (adds k) es)
        (any (removes k) es)
        (any (relists k) es)
        (any changes_document es)
unfolding on_events
on_events-Extends k c [] = ground arith
on_events-Extends k c (e ∷ es) =
    ground (arith, on_event-Extends k c e, on_events-Extends k (on_event c e) es)

-- A set that is empty has no member.
empty-mem : (k : String) (xs : List String) → is_empty xs ≡ true → mem k xs ≡ false
unfolding mem
empty-mem k [] h = refl
empty-mem k (x ∷ xs) h = cc

derived_of-sets :
    (k : String) (c : EventChanges)
    → let d = derived_of c in
      (d.ids ≡ c.ids)
      × (d.structural ≡ c.structural)
      × (mem k (added_of d.relink) ≡ (mem k c.added_ids && not c.structural))
      × (mem k (removed_of d.relink) ≡ (mem k c.removed_ids && not c.structural))
      × (mem k (parents_of d.relink) ≡ (mem k c.parents_touched && not c.structural))
unfolding derived_of has_relink mem
derived_of-sets k c =
    ground
      (arith, empty-mem k c.added_ids, empty-mem k c.removed_ids, empty-mem k c.parents_touched)

-- A batch lists exactly the nodes that an event is about; it is structural exactly when an event
-- changes a key of the whole document, and otherwise names as added, removed or relisted exactly
-- the nodes of which an event says so. The order of the events does not matter.
pub derive_changed_node_ids-described :
    (k : String) (es : List TreeEvent)
    → let d = derive_changed_node_ids es in
      let whole = any changes_document es in
      (mem k d.ids ≡ any (touches k) es)
      × (d.structural ≡ whole)
      × (mem k (added_of d.relink) ≡ (any (adds k) es && not whole))
      × (mem k (removed_of d.relink) ≡ (any (removes k) es && not whole))
      × (mem k (parents_of d.relink) ≡ (any (relists k) es && not whole))
unfolding derive_changed_node_ids mem
derive_changed_node_ids-described k es =
    ground (arith, derived_of-sets k (on_events no_changes es), on_events-Extends k no_changes es)
