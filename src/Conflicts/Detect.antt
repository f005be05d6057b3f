-- ===== src/Conflicts/Detect.antt =====
-- `computeConflict` and its helpers: the nodes and props on which both peers diverged.
use anvilkit_plugin_collab_y.Base.{
  Bool, true, false, not, ◌&&◌, ◌||◌, Option, none, some, List, [], ◌∷◌, ◌++◌, map, String, ◌==◌,
  string_eq, if◌then◌else◌, keep,
}
use anvilkit_plugin_collab_y.Base.Dict.{Dict, keys, get, put_all}
use anvilkit_plugin_collab_y.Base.IdSet.{add_all}
use anvilkit_plugin_collab_y.Ir.{
  Json, Node, PageIr, own, node_id, children_key, walk, option_json_eq, ids_eq,
}

-- A prop on which both diverged. A value is `none` where the prop is absent.
pub record ConflictField : Type 0 where
  pub node : String
  pub prop : String
  pub local_value : Option Json
  pub remote_value : Option Json

pub record Conflict : Type 0 where
  pub node_ids : List String
  pub fields : List ConflictField

unfoldable pub collect_nodes : Node → Dict String Node
collect_nodes root = put_all (map (λ n. (node_id n, n)) (walk root)) []

abbrev pub props_of : Node → Dict String Json
props_of n = (own n).props

-- Whether both diverged on a prop; without a baseline, whether they differ.
unfoldable pub prop_diverged :
    Dict String Json → Dict String Json → Option (Dict String Json) → String → Bool
prop_diverged a b baseline k = if get k a == get k b then false else elim baseline [
  | none ↦ true
  | some base ↦ not (get k a == get k base) && not (get k b == get k base)
]

abbrev pub conflict_field : String → Dict String Json → Dict String Json → String → ConflictField
conflict_field id a b k = record {
  node = id;
  prop = k;
  local_value = get k a;
  remote_value = get k b;
}

unfoldable pub prop_conflict_fields :
    String → Dict String Json → Dict String Json → Option (Dict String Json) → List ConflictField
prop_conflict_fields id a b baseline =
    map (conflict_field id a b)
      (keep (prop_diverged a b baseline) (add_all (keys b) (add_all (keys a) [])))

abbrev pub order_of : Option (List Node) → List String
order_of none = []
order_of (some ns) = map node_id ns

unfoldable pub same_child_order : Option (List Node) → Option (List Node) → Bool
same_child_order left right = order_of left == order_of right

unfoldable pub child_order_conflict :
    Option (List Node) → Option (List Node) → Option (List Node) → Bool
child_order_conflict left right none = not (same_child_order left right)
child_order_conflict left right (some base) =
    if same_child_order left right
    then false
    else not (same_child_order left (some base)) && not (same_child_order right (some base))

abbrev pub baseline_props : Option Node → Option (Dict String Json)
baseline_props none = none
baseline_props (some n) = some (props_of n)

abbrev pub baseline_children : Option Node → Option (List Node)
baseline_children none = none
baseline_children (some n) = children_key n

unfoldable pub node_fields : String → Node → Node → Option Node → List ConflictField
node_fields id local remote baseline =
    prop_conflict_fields id (props_of local) (props_of remote) (baseline_props baseline)

unfoldable pub node_reordered : Node → Node → Option Node → Bool
node_reordered local remote baseline =
    child_order_conflict (children_key local) (children_key remote) (baseline_children baseline)

abbrev pub some_field : List ConflictField → Bool
some_field [] = false
some_field (f ∷ fs) = true

abbrev pub baseline_at : Option (Dict String Node) → String → Option Node
baseline_at none id = none
baseline_at (some m) id = get id m

-- One round of the loop over the local nodes.
unfoldable pub compare_node :
    Dict String Node → Option (Dict String Node) → String → Node → Conflict → Conflict
compare_node remotes baselines id local found = elim (get id remotes) [
  | none ↦ found
  | some remote ↦
      let fields = node_fields id local remote (baseline_at baselines id) in
      if some_field fields || node_reordered local remote (baseline_at baselines id)
      then record { node_ids = found.node_ids ++ (id ∷ []); fields = found.fields ++ fields }
      else found
]

unfoldable pub compare_all :
    Dict String Node → Option (Dict String Node) → List (String × Node) → Conflict → Conflict
compare_all remotes baselines [] found = found
compare_all remotes baselines ((id, n) ∷ es) found =
    compare_all remotes baselines es (compare_node remotes baselines id n found)

abbrev pub baseline_nodes : Option PageIr → Option (Dict String Node)
baseline_nodes none = none
baseline_nodes (some ir) = some (collect_nodes ir.root)

unfoldable pub compute_conflict : Option PageIr → PageIr → PageIr → Conflict
compute_conflict baseline local remote =
    compare_all (collect_nodes remote.root) (baseline_nodes baseline) (collect_nodes local.root)
      (record { node_ids = []; fields = [] })
