-- ===== src/Conflicts/Overrides.antt =====
-- What a resolution makes of the merged document.
use anvilkit_plugin_collab_y.Base.{
  ◌≡◌, refl, ap, ap₂, ◌∙◌, sym, false, Option, some, or_else, List, [], ◌∷◌, ◌++◌, map, String,
  string_eq, arith,
}
use anvilkit_plugin_collab_y.Base.Dict.{Dict, get, last_of, get-put_all}
use anvilkit_plugin_collab_y.Ir.{
  Json, Node, leaf, branch, Forest, end, more, own, node_id, walk, walk_back, option_json_eq,
  children_key,
}
use anvilkit_plugin_collab_y.Conflicts.Detect.{collect_nodes, props_of, order_of}
use anvilkit_plugin_collab_y.Conflicts.Resolve.{
  Overrides, draft_props, draft_own, override, override_forest,
}
use mathlib.Core.List.{map-append}
use anvilkit_plugin_collab_y.Conflicts.Drafts.{draft_props_unchanged}

module _ (ov : Overrides) where
  abbrev over : Node → Node
  over n = (override ov n).0

  mutual
    unfolding override walk draft_own

    walk-override : (n : Node) → walk (over n) ≡ map over (walk n)
    walk-override (leaf o) = refl
    walk-override (branch o f) = ap (◌∷◌ (over (branch o f))) (walk_back-override f)

    walk_back-override : (f : Forest) → walk_back (override_forest ov f).0 ≡ map over (walk_back f)
    walk_back-override end = refl
    walk_back-override (more n f) =
        ap₂ (◌++◌) (walk_back-override f) (walk-override n)
        ∙ sym (map-append over (walk_back f) (walk n))

  mutual
    unfolding override draft_own

    override_same : (n : Node) → (override ov n).1 ≡ false → over n ≡ n
    override_same (leaf o) h =
        ap (λ p. leaf (record o { props = p }))
          (draft_props_unchanged (or_else (get o.id ov) []) o.props false h).0
    override_same (branch o f) h =
        ap₂ (λ p g. branch (record o { props = p }) g)
          (draft_props_unchanged (or_else (get o.id ov) []) o.props false (ground (arith, h))).0
          (override_forest_same f (ground (arith, h)))

    override_forest_same :
        (f : Forest) → (override_forest ov f).1 ≡ false → (override_forest ov f).0 ≡ f
    override_forest_same end h = refl
    override_forest_same (more n f) h =
        ap₂ more (override_same n (ground (arith, h))) (override_forest_same f (ground (arith, h)))

mutual
  unfolding override draft_own draft_props get

  override_none : (n : Node) → (override [] n).1 ≡ false
  override_none (leaf o) = refl
  override_none (branch o f) = ground (arith, override_forest_none f)

  override_forest_none : (f : Forest) → (override_forest [] f).1 ≡ false
  override_forest_none end = refl
  override_forest_none (more n f) = ground (arith, override_none n, override_forest_none f)

last_of_id :
    (id : String) (n : Node) (ns : List Node)
    → last_of id (map (λ m. (node_id m, m)) ns) ≡ some n
    → node_id n ≡ id
unfolding last_of
last_of_id id n [] h = absurd (cc (h))
last_of_id id n (m ∷ ns) h =
    ground (arith, h, last_of_id id n ns, string_eq.same_key_iff (node_id m) id)

pub node_id-collect_nodes :
    (id : String) (n root : Node) → get id (collect_nodes root) ≡ some n → node_id n ≡ id
unfolding collect_nodes get
node_id-collect_nodes id n root h =
    last_of_id id n (walk root)
      (ground (arith, h, get-put_all id (map (λ m. (node_id m, m)) (walk root)) []))

-- A node of the merged document and of the resolved one: the same but for its props.
pub record Resolved (n m : Node) (value : String → Option Json) : Type 0 where
  pub same_own : own m ≡ record (own n) { props = props_of m }
  pub same_children : order_of (children_key m) ≡ order_of (children_key n)
  pub props_set : (k : String) → get k (props_of m) ≡ value k
