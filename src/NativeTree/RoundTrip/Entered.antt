-- ===== src/NativeTree/RoundTrip/Entered.antt =====
-- How a guarded read changes its guard when it enters nodes and reports nothing.
use anvilkit_plugin_collab_y.Base.{
  ◌+◌, ◌≡◌, refl, ap, ◌∙◌, true, false, ◌||◌, List, [], ◌∷◌, ◌++◌, map, String, string_eq, arith,
  length, length-append,
}
use anvilkit_plugin_collab_y.Base.IdSet.{mem, add, mem-append, mem-add}
use anvilkit_plugin_collab_y.Ir.{Node, node_id}
use anvilkit_plugin_collab_y.NativeTree.Read.{ReadGuard}

abbrev pub ids : List Node → List String
ids ns = map node_id ns

-- The guard after a read that entered these ids and reported nothing.
pub record Entered (g h : ReadGuard) (xs : List String) : Type 0 where
  pub count : h.count ≡ g.count + length xs
  pub running : h.tripped ≡ false
  pub visited : (x : String) → mem x h.visited ≡ (mem x g.visited || mem x xs)
  pub calls : h.calls ≡ g.calls

pub Entered-none : (g : ReadGuard) → g.tripped ≡ false → Entered g g []
unfolding mem
Entered-none g f = record {
  count = omega arith;
  running = f;
  visited = λ x. ground arith;
  calls = refl;
}

pub Entered-append :
    (g h k : ReadGuard) (xs ys : List String)
    → Entered g h xs
    → Entered h k ys
    → Entered g k (xs ++ ys)
Entered-append g h k xs ys a b = record {
  count = omega (arith, a.count, b.count, length-append xs ys);
  running = b.running;
  visited = λ x. ground (arith, a.visited x, b.visited x, mem-append x xs ys);
  calls = b.calls ∙ a.calls;
}

pub Entered-cons :
    (g h k : ReadGuard) (id : String) (xs : List String)
    → h.count ≡ g.count + 1
    → h.visited ≡ add id g.visited
    → h.calls ≡ g.calls
    → Entered h k xs
    → Entered g k (id ∷ xs)
unfolding mem
Entered-cons g h k id xs c v e a = record {
  count = omega (arith, a.count, c);
  running = a.running;
  visited = λ x. ground (arith, a.visited x, ap (mem x) v, mem-add x id g.visited);
  calls = a.calls ∙ e;
}

-- None of the ids is visited yet.
abbrev pub Unvisited : ReadGuard → List String → Type 0
Unvisited g xs = (x : String) → mem x xs ≡ true → mem x g.visited ≡ false
