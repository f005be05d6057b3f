-- ===== src/Conflicts/Resolve.antt =====
-- `buildResolvedIR` and `applyOverrides`: the host's choice laid over the merged document.
use anvilkit_plugin_collab_y.Base.{
  Bool, true, false, ◌||◌, Option, none, some, or_else, List, [], ◌∷◌, String, ◌==◌, string_eq,
  if◌then◌else◌,
}
use anvilkit_plugin_collab_y.Base.Dict.{Dict, get, put, del}
use anvilkit_plugin_collab_y.Ir.{
  Json, Own, Node, leaf, branch, Forest, end, more, PageIr, option_json_eq,
}
use anvilkit_plugin_collab_y.Conflicts.Detect.{ConflictField}

-- For each node, a value for some of its props. `none` is the value `undefined`.
abbrev pub Overrides : Type 0
Overrides = Dict String (Dict String (Option Json))

pub data Resolution : Type 0 where
  local_wins remote_wins : Resolution
  fields_win : List (String × Dict String (Option Json)) → Resolution

-- `add` of buildResolvedIR.
unfoldable pub add_override : String → String → Option Json → Overrides → Overrides
add_override node prop value ov = put node (put prop value (or_else (get node ov) [])) ov

unfoldable pub local_overrides : List ConflictField → Overrides → Overrides
local_overrides [] ov = ov
local_overrides (f ∷ fs) ov = local_overrides fs (add_override f.node f.prop f.local_value ov)

unfoldable pub node_overrides : String → List (String × Option Json) → Overrides → Overrides
node_overrides node [] ov = ov
node_overrides node ((prop, value) ∷ es) ov =
    node_overrides node es (add_override node prop value ov)

unfoldable pub chosen_overrides : List (String × Dict String (Option Json)) → Overrides → Overrides
chosen_overrides [] ov = ov
chosen_overrides ((node, es) ∷ ns) ov = chosen_overrides ns (node_overrides node es ov)

-- `draft[field] = value`. A prop that is set to `undefined` reads, compares and is stored as one
-- that is absent.
unfoldable pub set_prop : String → Option Json → Dict String Json → Dict String Json
set_prop k none props = del k props
set_prop k (some v) props = put k v props

-- The draft of a node's props, and `propsChanged`.
unfoldable pub draft_props :
    List (String × Option Json) → Dict String Json → Bool → Dict String Json × Bool
draft_props [] draft changed = (draft, changed)
draft_props ((k, v) ∷ es) draft changed =
    if get k draft == v
    then draft_props es draft changed
    else draft_props es (set_prop k v draft) true

module _ (ov : Overrides) where
  unfoldable pub draft_own : Own → Own × Bool
  draft_own o =
      let (props, changed) = draft_props (or_else (get o.id ov) []) o.props false in
      (record o { props = props }, changed)

  -- A node that was not replaced comes back with `false`.
  unfoldable mutual
    pub override : Node → Node × Bool
    override (leaf o) = (leaf (draft_own o).0, (draft_own o).1)
    override (branch o f) =
        (branch (draft_own o).0 (override_forest f).0, (override_forest f).1 || (draft_own o).1)

    pub override_forest : Forest → Forest × Bool
    override_forest end = (end, false)
    override_forest (more n f) =
        (more (override n).0 (override_forest f).0, (override n).1 || (override_forest f).1)

  unfoldable pub apply_overrides : PageIr → PageIr × Bool
  apply_overrides ir =
      if (override ir.root).1
      then (record ir { root = (override ir.root).0 }, true)
      else (ir, false)

abbrev pub overrides_of : List ConflictField → Resolution → Overrides
overrides_of fields local_wins = local_overrides fields []
overrides_of fields remote_wins = []
overrides_of fields (fields_win chosen) = chosen_overrides chosen []

unfoldable pub resolve_with : PageIr → Overrides → Option PageIr
resolve_with remote [] = none
resolve_with remote (e ∷ es) =
    if (apply_overrides (e ∷ es) remote).1 then some (apply_overrides (e ∷ es) remote).0 else none

unfoldable pub build_resolved_ir : PageIr → List ConflictField → Option Resolution → Option PageIr
build_resolved_ir remote fields none = none
build_resolved_ir remote fields (some remote_wins) = none
build_resolved_ir remote fields (some local_wins) =
    resolve_with remote (overrides_of fields local_wins)
build_resolved_ir remote fields (some (fields_win chosen)) =
    resolve_with remote (overrides_of fields (fields_win chosen))
