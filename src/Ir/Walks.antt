-- ===== src/Ir/Walks.antt =====
-- What the traversals have in common, and that the stack loop computes them.
use anvilkit_plugin_collab_y.Base.{
  ℕ, zero, suc, ◌+◌, ◌≤◌, ◌<◌, ◌≡◌, refl, sym, ap, ◌∙◌, subst, inl, inr, List, [], ◌∷◌, ◌++◌, arith,
  In, In-append_left, In-append_right, In-append,
}
use anvilkit_plugin_collab_y.Ir.Data.{Own, Node, leaf, branch, Forest, end, more}
use anvilkit_plugin_collab_y.Ir.Walk.{
  trees, forest, children, size, size_forest, walk, walk_back, visit, visit_all, push_all,
  walk_loop,
}
use mathlib.Core.List.{append_assoc, append-nil}

pub forest-trees : (f : Forest) → forest (trees f) ≡ f
unfolding forest trees
forest-trees end = refl
forest-trees (more n f) = ap (more n) (forest-trees f)

mutual
  unfolding walk visit

  In-walk-visit : (t : Node) (n : Node) → In n (walk t) → In n (visit t)
  In-walk-visit (leaf o) n h = h
  In-walk-visit (branch o f) n (inl e) = inl e
  In-walk-visit (branch o f) n (inr h) = inr (In-walk_back-visit_all f n h)

  In-walk_back-visit_all : (f : Forest) (n : Node) → In n (walk_back f) → In n (visit_all f)
  In-walk_back-visit_all end n h = h
  In-walk_back-visit_all (more t f) n h = elim (In-append n (walk_back f) (walk t) h) [
    | inl l ↦ In-append_right n (visit t) (visit_all f) (In-walk_back-visit_all f n l)
    | inr r ↦ In-append_left n (visit t) (visit_all f) (In-walk-visit t n r)
  ]

mutual
  unfolding walk visit

  In-visit-walk : (t : Node) (n : Node) → In n (visit t) → In n (walk t)
  In-visit-walk (leaf o) n h = h
  In-visit-walk (branch o f) n (inl e) = inl e
  In-visit-walk (branch o f) n (inr h) = inr (In-visit_all-walk_back f n h)

  In-visit_all-walk_back : (f : Forest) (n : Node) → In n (visit_all f) → In n (walk_back f)
  In-visit_all-walk_back end n h = h
  In-visit_all-walk_back (more t f) n h = elim (In-append n (visit t) (visit_all f) h) [
    | inl l ↦ In-append_right n (walk_back f) (walk t) (In-visit-walk t n l)
    | inr r ↦ In-append_left n (walk_back f) (walk t) (In-visit_all-walk_back f n r)
  ]

-- Both orders visit the same nodes.
pub visit_iff : (t n : Node) → (In n (walk t) → In n (visit t)) × (In n (visit t) → In n (walk t))
visit_iff t n = (In-walk-visit t n, In-visit-walk t n)

pub In-walk_self : (n : Node) → In n (walk n)
unfolding walk
In-walk_self (leaf o) = inl refl
In-walk_self (branch o f) = inl refl

mutual
  unfolding walk size

  size-In : (t : Node) (n : Node) → In n (walk t) → size n ≤ size t
  size-In (leaf o) n (inl e) = subst (λ m. size m ≤ 1) e (omega arith)
  size-In (leaf o) n (inr h) = absurd h
  size-In (branch o f) n (inl e) = subst (λ m. size m ≤ suc (size_forest f)) e (omega arith)
  size-In (branch o f) n (inr h) = omega (arith, size_forest-In f n h)

  size_forest-In : (f : Forest) (n : Node) → In n (walk_back f) → size n ≤ size_forest f
  size_forest-In end n h = absurd h
  size_forest-In (more t f) n h = elim (In-append n (walk_back f) (walk t) h) [
    | inl l ↦ omega (arith, size_forest-In f n l)
    | inr r ↦ omega (arith, size-In t n r)
  ]

pub size-le : (t n : Node) → In n (walk t) → size n ≤ size t
size-le t n h = size-In t n h

pub size-below : (o : Own) (f : Forest) (n : Node) → In n (walk_back f) → size n < size (branch o f)
unfolding size
size-below o f n h = omega (arith, size_forest-In f n h)

size_pos : (n : Node) → 0 < size n
unfolding size
size_pos (leaf o) = omega arith
size_pos (branch o f) = omega arith

-- The nodes still to be visited from a stack, and how many they are.
abbrev walk_stack : List Node → List Node
walk_stack [] = []
walk_stack (n ∷ ns) = walk n ++ walk_stack ns

abbrev stack_size : List Node → ℕ
stack_size [] = 0
stack_size (n ∷ ns) = size n + stack_size ns

walk_stack-push_all :
    (f : Forest) (ns : List Node)
    → walk_stack (push_all (trees f) ns) ≡ walk_back f ++ walk_stack ns
unfolding trees push_all walk
walk_stack-push_all end ns = refl
walk_stack-push_all (more n f) ns =
    walk_stack-push_all f (n ∷ ns) ∙ sym (append_assoc (walk_back f) (walk n) (walk_stack ns))

stack_size-push_all :
    (f : Forest) (ns : List Node)
    → stack_size (push_all (trees f) ns) ≡ size_forest f + stack_size ns
unfolding trees push_all size
stack_size-push_all end ns = omega arith
stack_size-push_all (more n f) ns = omega (arith, stack_size-push_all f (n ∷ ns))

next_size :
    (n : Node) (ns : List Node) → stack_size (push_all (children n) ns) + 1 ≡ size n + stack_size ns
unfolding size push_all
next_size (leaf o) ns = omega arith
next_size (branch o f) ns = omega (arith, stack_size-push_all f ns)

next_walk :
    (n : Node) (ns : List Node)
    → n ∷ walk_stack (push_all (children n) ns) ≡ walk n ++ walk_stack ns
unfolding walk push_all
next_walk (leaf o) ns = refl
next_walk (branch o f) ns = ap (◌∷◌ (branch o f)) (walk_stack-push_all f ns)

walk_loop_stack :
    (fuel : ℕ) (ns : List Node) → stack_size ns ≤ fuel → walk_loop fuel ns ≡ walk_stack ns
unfolding walk_loop
walk_loop_stack zero [] h = refl
walk_loop_stack zero (n ∷ ns) h = absurd (omega (arith, size_pos n))
walk_loop_stack (suc fuel) [] h = refl
walk_loop_stack (suc fuel) (n ∷ ns) h =
    ap (◌∷◌ n) (walk_loop_stack fuel (push_all (children n) ns) (omega (arith, next_size n ns)))
    ∙ next_walk n ns

-- The stack loop visits exactly the nodes of the tree, in the order of `walk`, within as many
-- rounds as the tree has nodes.
pub walk_loop-walk : (t : Node) → walk_loop (size t) (t ∷ []) ≡ walk t
walk_loop-walk t = walk_loop_stack (size t) (t ∷ []) (omega arith) ∙ append-nil (walk t)
