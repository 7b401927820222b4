-- ===== src/Schema/Builder.antt =====
-- schema/builder.go: building a schema from a document. The builders of one level take the builder
-- of the nodes below, `rec`; `build_node_map` ties the knot on fuel, and `none` is its lack.
pub mod Depth
pub mod Nodes
pub mod Levels
pub mod Total
pub mod Holds
pub mod WellFormed
pub mod Invariant
mod Tests
use jsoff.Base.{
  ℕ, zero, suc, ◌+◌, String, Bool, true, false, ◌==◌, Option, none, some, List, [], ◌∷◌, ◌++◌,
  lookup, store, is_some, if◌then◌else◌,
}
use jsoff.Value.{Any, str, list, items}
use jsoff.Result.{Result, ok, err, panic, build}
use jsoff.Schema.{
  Schema, no_mixin, any_schema, null_schema, bool_schema, any_of, all_of, not_schema, list_schema,
  tuple_schema, method_schema, object_schema, to_schemas, Maybe, absent, present, Props, no_props,
  prop, props,
}
use jsoff.Schema.Scan.{index, dotted}
use jsoff.Schema.Document.{Entries}
use jsoff.Schema.Convert.{
  convert_type_map, convert_attr_map, convert_attr_int, convert_attr_map_of_map,
  convert_attr_list_of_map, convert_attr_list_of_string,
}
use jsoff.Schema.Leaf.{
  build_number_schema, build_integer_schema, build_string_schema, build_mixin, non_negative,
}

abbrev pub Paths : Type 0
Paths = List String

abbrev pub Built : Type 0 → Type 0
Built A = Option (Result A)

abbrev pub finished : {A : Type 0} → A → Built A
finished a = some (ok a)

infixl 5 ◌>>=◌
abbrev pub ◌>>=◌ : {A B : Type 0} → Built A → (A → Built B) → Built B
none >>= f = none
some (ok a) >>= f = f a
some (err e) >>= f = some (err e)
some (panic r) >>= f = some (panic r)

-- `NewBuildError`
abbrev pub fail : {A : Type 0} → String → Paths → Built A
fail info paths = some (err (build info paths))

abbrev pub under : Paths → String → Paths
under paths segment = paths ++ segment ∷ []

-- An assignment to a map of properties.
abbrev pub store_prop : String → Schema → Props → Props
store_prop k s no_props = prop k s no_props
store_prop k s (prop j t ps) = if j == k then prop k s ps else prop j t (store_prop k s ps)

-- A node for a result; it is of type "any" if no type was given or guessed.
abbrev pub or_any : Entries → Entries
or_any m = if is_some (lookup "type" m) then m else store "type" (str "any") m

module _ (rec : Entries → Paths → Built Schema) where
  unfoldable pub build_node : Any → Paths → Built Schema
  build_node data' paths = elim (convert_type_map data') [
    | some m ↦ rec m paths
    | none ↦ fail "data is not an object" paths
  ]

  -- The attribute for additional items, params or properties.
  unfoldable pub build_additional : Option Any → Paths → Built Maybe
  build_additional none paths = finished absent
  build_additional (some v) paths = do s ← build_node v paths; finished (present s)

  -- The loop over the items of a tuple.
  unfoldable pub build_items : ℕ → List Any → Paths → Built (List Schema)
  build_items i [] paths = finished []
  build_items i (v ∷ vs) paths = do
    s ← build_node v (under paths (index i))
    rest ← build_items (suc i) vs paths
    finished (s ∷ rest)

  unfoldable pub build_list_schema : Entries → Option Any → Paths → Built Schema
  build_list_schema node none paths = fail "no items" paths
  build_list_schema node (some (list xs)) paths = do
    children ← build_items 0 (items xs) paths
    more ← build_additional (lookup "additionalItems" node) (under paths ".additionalItems")
    finished (tuple_schema no_mixin (to_schemas children) more)
  build_list_schema node (some v) paths = do
    s ← build_node v paths
    finished (
        list_schema no_mixin s (non_negative (convert_attr_int node "minItems" false))
          (non_negative (convert_attr_int node "maxItems" false)))

  -- The loop over the nodes of a list of choices or params.
  unfoldable pub build_each : String → ℕ → List Entries → Paths → Built (List Schema)
  build_each key i [] paths = finished []
  build_each key i (node ∷ nodes) paths = do
    s ← rec node (paths ++ key ∷ index i ∷ [])
    rest ← build_each key (suc i) nodes paths
    finished (s ∷ rest)

  unfoldable pub build_any_of_schema : Option (List Entries) → Paths → Built Schema
  build_any_of_schema none paths = fail "no valid anyOf attribute" paths
  build_any_of_schema (some nodes) paths = do
    choices ← build_each ".anyOf" 0 nodes paths
    finished (any_of no_mixin (to_schemas choices))

  unfoldable pub build_all_of_schema : Option (List Entries) → Paths → Built Schema
  build_all_of_schema none paths = fail "no valid allOf attribute" paths
  build_all_of_schema (some nodes) paths = do
    choices ← build_each ".allOf" 0 nodes paths
    finished (all_of no_mixin (to_schemas choices))

  unfoldable pub build_not_schema : Option Entries → Paths → Built Schema
  build_not_schema none paths = fail "no valid not attribute" paths
  build_not_schema (some node) paths = do
    s ← rec node (under paths ".not")
    finished (not_schema no_mixin s)

  -- An attribute "returns" that is no map counts as missing, and then there is no schema for it.
  unfoldable pub build_returns : Option Entries → Paths → Built Maybe
  build_returns none paths = finished absent
  build_returns (some node) paths = do
    s ← rec (or_any node) (under paths ".returns")
    finished (present s)

  unfoldable pub build_method_schema : Entries → Option (List Entries) → Paths → Built Schema
  build_method_schema node none paths = fail "params is not a list of objects" paths
  build_method_schema node (some nodes) paths = do
    params ← build_each ".params" 0 nodes paths
    more ← build_additional (lookup "additionalParams" node) (under paths ".additionalParams")
    returns ← build_returns (convert_attr_map node "returns" true) paths
    finished (method_schema no_mixin (to_schemas params) returns more)

  -- The loop over the nodes of the properties; `found` are those that were built.
  unfoldable pub build_props : List (String × Entries) → Props → Paths → Built Props
  build_props [] found paths = finished found
  build_props ((name, node) ∷ nodes) found paths = do
    s ← rec node (paths ++ ".properties" ∷ dotted name ∷ [])
    build_props nodes (store_prop name s found) paths

abbrev pub with_mixin : Entries → Paths → Built Schema → Built Schema
with_mixin node paths built = do s ← built; some (build_mixin s node paths)

-- The loop over the names of required properties.
unfoldable pub build_requires :
    Props → List String → List (String × Bool) → Paths → Built (List (String × Bool))
build_requires found [] requires paths = finished requires
build_requires found (name ∷ names) requires paths =
    let next = build_requires found names (store name true requires) paths in
    if is_some (lookup name (props found))
    then next
    else fail "cannot find required prop" (paths ++ ".requires" ∷ dotted name ∷ [])

abbrev pub required : Props → Option (List String) → Paths → Built (List (String × Bool))
required found none paths = fail "requires is not a list of strings" (under paths ".requires")
required found (some names) paths = build_requires found names [] paths

module _ (rec : Entries → Paths → Built Schema) where
  unfoldable pub build_object_schema :
      Entries → Option (List (String × Entries)) → Paths → Built Schema
  build_object_schema node none paths = fail "properties is not a map of objects" paths
  build_object_schema node (some nodes) paths = do
    found ← build_props rec nodes no_props paths
    requires ← required found (convert_attr_list_of_string node "requires" true) paths
    more ←
        build_additional rec (lookup "additionalProperties" node)
          (under paths ".additionalProperties")
    finished (object_schema no_mixin found requires more)

  -- The switch on the type.
  unfoldable pub build_type : String → Entries → Paths → Built Schema
  build_type kind node paths =
      if kind == "number"
      then finished (build_number_schema node)
      else if kind == "integer"
      then finished (build_integer_schema node)
      else if kind == "bool"
      then finished (bool_schema no_mixin)
      else if kind == "any"
      then finished (any_schema no_mixin)
      else if kind == "null"
      then finished (null_schema no_mixin)
      else if kind == "string"
      then finished (build_string_schema node)
      else if kind == "anyOf"
      then build_any_of_schema rec (convert_attr_list_of_map node "anyOf" false) paths
      else if kind == "allOf"
      then build_all_of_schema rec (convert_attr_list_of_map node "allOf" false) paths
      else if kind == "not"
      then build_not_schema rec (convert_attr_map node "not" false) paths
      else if kind == "list"
      then build_list_schema rec node (lookup "items" node) paths
      else if kind == "object"
      then build_object_schema node (convert_attr_map_of_map node "properties" true) paths
      else if kind == "method"
      then build_method_schema rec node (convert_attr_list_of_map node "params" false) paths
      else fail "unknown type" paths

  unfoldable pub build_typed : Option Any → Entries → Paths → Built Schema
  build_typed none node paths = fail "no type presented" paths
  build_typed (some (str kind)) node paths = with_mixin node paths (build_type kind node paths)
  build_typed (some _) node paths = fail "unknown type" paths

-- `buildNodeMap`
unfoldable pub build_node_map : ℕ → Entries → Paths → Built Schema
build_node_map zero node paths = none
build_node_map (suc fuel) node paths =
    build_typed (build_node_map fuel) (lookup "type" node) node paths
