-- ===== src/Ir/Data.antt =====
-- JSON values and document nodes, with their equality.
use anvilkit_plugin_collab_y.Base.{
  ℕ, Bool, Option, List, String, Keyed, String_discrete, eq_of_discrete,
}
use anvilkit_plugin_collab_y.Base.Dict.{Dict}
use native.Mathlib.Decide.{ℕ_discrete}

mutual
  pub data Json : Type 0 where
    null : Json
    bool : Bool → Json
    num : ℕ → Json
    str : String → Json
    arr : Items → Json
    obj : Fields → Json

  pub data Items : Type 0 where
    nil : Items
    cons : Json → Items → Items

  pub data Fields : Type 0 where
    stop : Fields
    field : String → Json → Fields → Fields

unfoldable pub Json_discrete : Discrete Json
Json_discrete = hlevel (ℕ_discrete, String_discrete)

unfoldable pub OptionJson_discrete : Discrete (Option Json)
OptionJson_discrete = hlevel Json_discrete

unfoldable pub OptionString_discrete : Discrete (Option String)
OptionString_discrete = hlevel String_discrete

unfoldable pub Props_discrete : Discrete (Dict String Json)
Props_discrete = hlevel (Json_discrete, String_discrete)

unfoldable pub Ids_discrete : Discrete (List String)
Ids_discrete = hlevel String_discrete

-- `JSON.stringify(a) === JSON.stringify(b)`: two values have one text exactly when they are the
-- same tree, the order of their keys included.
instance abbrev pub json_eq : Keyed Json
json_eq = eq_of_discrete Json_discrete

instance abbrev pub option_json_eq : Keyed (Option Json)
option_json_eq = eq_of_discrete OptionJson_discrete

instance abbrev pub option_string_eq : Keyed (Option String)
option_string_eq = eq_of_discrete OptionString_discrete

instance abbrev pub props_eq : Keyed (Dict String Json)
props_eq = eq_of_discrete Props_discrete

instance abbrev pub ids_eq : Keyed (List String)
ids_eq = eq_of_discrete Ids_discrete

-- The fields of a `PageIRNode` but for `children`; an optional field that is absent is `none`.
pub record Own : Type 0 where
  pub id : String
  pub kind : String
  pub slot : Option String
  pub slot_kind : Option String
  pub props : Dict String Json
  pub assets : Option Json
  pub meta : Option Json

mutual
  pub data Node : Type 0 where
    leaf : Own → Node
    branch : Own → Forest → Node

  pub data Forest : Type 0 where
    end : Forest
    more : Node → Forest → Forest

pub record PageIr : Type 0 where
  pub version : String
  pub root : Node
  pub assets : Json
  pub metadata : Json
