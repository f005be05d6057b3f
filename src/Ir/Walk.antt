-- ===== src/Ir/Walk.antt =====
-- Access to nodes, and the traversals.
use anvilkit_plugin_collab_y.Base.{
  ℕ, zero, suc, ◌+◌, Option, none, some, List, [], ◌∷◌, ◌++◌, String,
}
use anvilkit_plugin_collab_y.Ir.Data.{Own, Node, leaf, branch, Forest, end, more}

abbrev pub own : Node → Own
own (leaf o) = o
own (branch o f) = o

abbrev pub node_id : Node → String
node_id n = (own n).id

unfoldable pub trees : Forest → List Node
trees end = []
trees (more n f) = n ∷ trees f

unfoldable pub forest : List Node → Forest
forest [] = end
forest (n ∷ ns) = more n (forest ns)

-- `node.children ?? []`
abbrev pub children : Node → List Node
children (leaf o) = []
children (branch o f) = trees f

-- `node.children` where an absent key is `undefined`.
abbrev pub children_key : Node → Option (List Node)
children_key (leaf o) = none
children_key (branch o f) = some (trees f)

unfoldable mutual
  pub size : Node → ℕ
  size (leaf o) = 1
  size (branch o f) = suc (size_forest f)

  pub size_forest : Forest → ℕ
  size_forest end = 0
  size_forest (more n f) = size n + size_forest f

-- The order in which the explicit stack of `walkNodes` visits: a node, then its children from the
-- last to the first, each with its subtree.
unfoldable mutual
  pub walk : Node → List Node
  walk (leaf o) = leaf o ∷ []
  walk (branch o f) = branch o f ∷ walk_back f

  pub walk_back : Forest → List Node
  walk_back end = []
  walk_back (more n f) = walk_back f ++ walk n

-- The recursive visits (`collectIds`, `walk` of payload-chain.ts): children from first to last.
unfoldable mutual
  pub visit : Node → List Node
  visit (leaf o) = leaf o ∷ []
  visit (branch o f) = branch o f ∷ visit_all f

  pub visit_all : Forest → List Node
  visit_all end = []
  visit_all (more n f) = visit n ++ visit_all f

-- `stack.push(...children)`, the top of the stack first.
unfoldable pub push_all : List Node → List Node → List Node
push_all [] stack = stack
push_all (c ∷ cs) stack = push_all cs (c ∷ stack)

-- The loop of `walkNodes` itself; one round of fuel for each node suffices.
unfoldable pub walk_loop : ℕ → List Node → List Node
walk_loop zero stack = []
walk_loop (suc fuel) [] = []
walk_loop (suc fuel) (n ∷ stack) = n ∷ walk_loop fuel (push_all (children n) stack)
