-- ===== src/LiveIr/Materialize/Fuel.antt =====
-- More fuel than ids are cached changes nothing, whatever the cache holds.
use anvilkit_plugin_collab_y.Base.{
  ℕ, zero, suc, ◌+◌, ◌≤◌, ◌<◌, ◌≡◌, refl, ap, ◌∙◌, subst, inl, inr, true, false, not, none, some,
  List, [], ◌∷◌, String, string_eq, beq-cases, arith, length, keep, length-keep-le, is_some,
  Bool-cases, Option-cases,
}
use anvilkit_plugin_collab_y.Base.Dict.{Dict, keys, get, mem-keys}
use anvilkit_plugin_collab_y.Base.IdSet.{mem, add, mem-add}
use anvilkit_plugin_collab_y.Ir.{Node}
use anvilkit_plugin_collab_y.LiveIr.{CachedNode}
use anvilkit_plugin_collab_y.NativeTree.Read.{with_children}
use anvilkit_plugin_collab_y.LiveIr.Materialize.{
  Built, materialize_children, materialize_node, enough,
}

-- How many of the keys are not visited.
abbrev unvisited : List String → List String → ℕ
unvisited visited ks = length (keep (λ k. not (mem k visited)) ks)

abbrev Within : List String → List String → Type 0
Within v w = (x : String) → mem x v ≡ true → mem x w ≡ true

unvisited_le : (v w ks : List String) → Within v w → unvisited w ks ≤ unvisited v ks
unvisited_le v w [] h = omega arith
unvisited_le v w (k ∷ ks) h = ground (arith, h k, unvisited_le v w ks h)

unvisited-add :
    (id : String) (v ks : List String)
    → mem id ks ≡ true
    → mem id v ≡ false
    → unvisited (add id v) ks < unvisited v ks
unfolding mem
unvisited-add id v [] h f = absurd (cc (h))
unvisited-add id v (k ∷ ks) h f =
    let rest = unvisited_le v (add id v) ks (λ x m. ground (arith, mem-add x id v, m)) in
    elim (beq-cases id k) [
      | inl (t, e) ↦
          let old : mem k v ≡ false = subst (λ z. mem z v ≡ false) e f in
          ground (arith, mem-add k id v, old, t, rest)
      | inr (n, e) ↦
          let below =
            unvisited-add id v ks
              (ground (arith, h, n, string_eq.same_key_iff k id, string_eq.same_key_iff id k)) f in
          ground (arith, mem-add k id v, n, below)
    ]

module _ (cache : Dict String CachedNode) where
  abbrev node : ℕ → String → List String → Built
  node fuel = materialize_node fuel cache

  children_grow :
      (f : String → List String → Built) (ids v : List String)
      → ((id : String) (w : List String) → Within w (f id w).1)
      → Within v (materialize_children f ids v).1
  unfolding materialize_children
  children_grow f [] v h x m = m
  children_grow f (id ∷ ids) v h x m = children_grow f ids (f id v).1 h x (h id v x m)

  node_grows : (fuel : ℕ) (id : String) (v : List String) → Within v (node fuel id v).1
  unfolding materialize_node
  node_grows zero id v x m = m
  node_grows (suc fuel) id v x m = elim (Bool-cases (mem id v)) [
    | inl t ↦ rw (materialize_node, t) m
    | inr f ↦ elim (Option-cases (get id cache)) [
      | inl e ↦ rw (materialize_node, f, e) m
      | inr (c, e) ↦
          rw (materialize_node, f, e)
            (children_grow (node fuel) c.child_ids (add id v) (node_grows fuel) x
              (ground (arith, mem-add x id v, m)))
    ]
  ]

  children_same :
      (f g : String → List String → Built) (bound : ℕ) (ids v : List String)
      → ((id : String) (w : List String) → unvisited w (keys cache) < bound → f id w ≡ g id w)
      → ((id : String) (w : List String) → Within w (f id w).1)
      → unvisited v (keys cache) < bound
      → materialize_children f ids v ≡ materialize_children g ids v
  unfolding materialize_children
  children_same f g bound [] v h grow b = refl
  children_same f g bound (id ∷ ids) v h grow b =
      let small = unvisited_le v (f id v).1 (keys cache) (grow id v) in
      ap (λ (r : List Node × List String). (elim (f id v).0 [ none ↦ r.0 | some c ↦ c ∷ r.0 ], r.1))
        (children_same f g bound ids (f id v).1 h grow (omega (arith, b, small)))
      ∙ ap
          (λ (q : Built).
            let rest = materialize_children g ids q.1 in
            (elim q.0 [ none ↦ rest.0 | some c ↦ c ∷ rest.0 ], rest.1))
          (h id v b)

  node_same :
      (fuel : ℕ) (id : String) (v : List String)
      → unvisited v (keys cache) < fuel
      → node (suc fuel) id v ≡ node fuel id v
  unfolding materialize_node
  node_same zero id v h = absurd (omega (arith, h))
  node_same (suc fuel) id v h = elim (Bool-cases (mem id v)) [
    | inl t ↦ rw t refl
    | inr f ↦ elim (Option-cases (get id cache)) [
      | inl e ↦ rw (f, e) refl
      | inr (c, e) ↦
          let there : mem id (keys cache) ≡ true = mem-keys id cache ∙ ap is_some e in
          let fewer = unvisited-add id v (keys cache) there f in
          rw (f, e)
            (ap (λ (r : List Node × List String). (some (with_children c.node r.0), r.1))
              (children_same (node (suc fuel)) (node fuel) fuel c.child_ids (add id v)
                (λ j w b. node_same fuel j w b) (node_grows (suc fuel)) (omega (arith, h, fewer))))
    ]
  ]

  -- A cache of any shape, cycles and missing children included, is linked the same way with any
  -- more fuel.
  pub materialize_node-enough :
      (more : ℕ) (id : String)
      → materialize_node (more + enough cache) cache id []
        ≡ materialize_node (enough cache) cache id []
  materialize_node-enough zero id = ap (λ n. materialize_node n cache id []) (omega arith)
  materialize_node-enough (suc more) id =
      let next : suc more + enough cache ≡ suc (more + enough cache) = omega arith in
      ap (λ n. materialize_node n cache id []) next
      ∙ node_same (more + enough cache) id []
          (omega (arith, length-keep-le (λ k. not (mem k [])) (keys cache)))
      ∙ materialize_node-enough more id
