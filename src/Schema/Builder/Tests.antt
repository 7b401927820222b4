-- ===== src/Schema/Builder/Tests.antt =====
-- Runs of the builder, and the theorems about it at concrete inputs.
use jsoff.Base.{String, true, some, none, pos, [], ◌∷◌, ◌≡◌, refl, lookup, store, itoa, ◌≤◌, arith}
use jsoff.Value.{Any, int, str, list, object, to_items, to_fields}
use jsoff.Result.{Result, ok, err, build, non_string_map}
use jsoff.Schema.{
  Schema, no_mixin, string_schema, any_schema, object_schema, method_schema, to_schemas, absent,
  present, prop, no_props, set_mixin,
}
use jsoff.Schema.Convert.{
  convert_type_map, guess_type, convert_attr_map, convert_attr_list, convert_attr_int,
  convert_attr_map_of_map, convert_values, convert_attr_list_of_map, convert_each,
  convert_attr_list_of_string, string_in_list,
}
use jsoff.Schema.Leaf.{build_string_schema, build_mixin}
use jsoff.Schema.Builder.{
  build_node, build_node_map, build_typed, build_type, build_object_schema, build_props,
  build_requires, build_additional, build_method_schema, build_each, build_returns,
}
use jsoff.Schema.Builder.Depth.{depth, max}
use jsoff.Schema.Builder.Total.{build_node-Ends_of_depth}
use jsoff.Schema.Builder.Holds.{Holds}
use jsoff.Schema.Builder.WellFormed.{IsBuilt}
use jsoff.Schema.Builder.Invariant.{build_node-Holds_always}
use jsoff.Schema.Yaml.{
  text, printed, Yaml, plain, sequence, mapping, element, no_elements, pair, no_pairs,
  fix_yaml_maps, fix_elements, fix_pairs,
}

-- A name that unfolds the builder.
builder : Unit {0}
unfolding convert_type_map guess_type convert_attr_map convert_attr_list convert_attr_int
    convert_attr_map_of_map convert_values convert_attr_list_of_map convert_each
    convert_attr_list_of_string string_in_list build_string_schema build_mixin build_node
    build_node_map build_typed build_type build_object_schema build_props build_requires
    build_additional build_method_schema build_each build_returns lookup store
builder = tt

-- An object that requires the property of a name.
abbrev requiring : String → Any
requiring name = object (
    to_fields (
      (
        "properties",
        object (
            to_fields (
              (
                "name",
                object (to_fields (("type", str "string") ∷ ("maxLength", int (pos 5)) ∷ [])),
              )
              ∷ [])),
      )
      ∷ ("requires", list (to_items (str name ∷ [])))
      ∷ ("name", str "person")
      ∷ []))

builds_object :
    build_node (build_node_map 4) (requiring "name") []
    ≡ some (
        ok (
          set_mixin
            (object_schema no_mixin
              (prop "name" (string_schema no_mixin (some (pos 5)) none) no_props)
              (("name", true) ∷ [])
              absent)
            (record { name = "person"; description = "" })))
unfolding builder
builds_object = refl

refuses_requirement :
    build_node (build_node_map 4) (requiring "age") []
    ≡ some (err (build "cannot find required prop" (".requires" ∷ ".age" ∷ [])))
unfolding builder
refuses_requirement = refl

-- The params of a method are built in order, and its result is of any type.
builds_method :
    build_node
      (build_node_map 3)
      (object (
        to_fields (
          ("params", list (to_items (str "string" ∷ [])))
          ∷ ("returns", object (to_fields []))
          ∷ [])))
      []
    ≡ some (
        ok (
          method_schema no_mixin
            (to_schemas (string_schema no_mixin none none ∷ []))
            (present (any_schema no_mixin))
            absent))
unfolding builder
builds_method = refl

shallow : depth (requiring "age") ≤ 4
unfolding max
shallow = omega arith

build_node-Ends_of_depth_example :
    (r : Result Schema) × (build_node (build_node_map 4) (requiring "age") [] ≡ some r)
build_node-Ends_of_depth_example = build_node-Ends_of_depth (requiring "age") [] 4 shallow

build_node-Holds_always_example :
    Holds IsBuilt
      (".params" ∷ [])
      (build_node (build_node_map 4) (requiring "name") (".params" ∷ []))
build_node-Holds_always_example = build_node-Holds_always 4 (requiring "name") (".params" ∷ [])

-- {"a": [{3: 4}]}
abbrev numbered : Yaml
numbered = mapping (
    pair (text "a")
      (sequence (element (mapping (pair (printed "3") (plain (int (pos 4))) no_pairs)) no_elements))
      no_pairs)

refuses_number_key : fix_yaml_maps numbered [] ≡ err (non_string_map (".a" ∷ "[0]" ∷ ".3" ∷ []))
unfolding fix_yaml_maps fix_elements fix_pairs itoa
refuses_number_key = refl
