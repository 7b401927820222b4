-- ===== src/Schema/Tests.antt =====
-- Runs of the validator, and the theorems about it at concrete inputs.
use jsoff.Base.{
  ℕ, is_some, store, pos, true, false, none, some, [], ◌∷◌, ◌≡◌, refl, ◌↔◌, itoa, lookup,
}
use jsoff.Value.{Any, nil, int, number, str, list, object, to_items, to_fields}
use jsoff.Value.Number.{float_lt, float_le, float_of_int, parse_int64, parse_float}
use jsoff.Schema.{
  Mixin, Range, Schema, no_mixin, any_schema, null_schema, integer_schema, string_schema,
  list_schema, method_schema, object_schema, to_schemas, absent, present, prop, no_props, set_mixin,
}
use jsoff.Schema.Equal.{equal, each_equal, sub_equal, props_in, pointer_equal, values_in}
use jsoff.Schema.Equal.Sound.{equal-validate}
use jsoff.Schema.Equal.Reflexive.{IsComparable, equal_refl}
use jsoff.Schema.Document.{Entries}
use jsoff.Schema.Convert.{convert_type_map, guess_type, convert_attr_map_of_map}
use jsoff.Schema.Convert.Laws.{convert_attr_map_of_map-refuses}
use jsoff.Schema.Validator.{
  SchemaValidator, done, Verdict, new_schema_validator, new_error_pos, push_path, pop_path,
  validator_scan,
}
use jsoff.Schema.Scan.{
  validate, scan, range_hint, check_range_float, check_range_int, scan_number, scan_integer,
  scan_string, scan_items, scan_others, scan_missing, scan_params,
}
use jsoff.Schema.Check.{check}
use jsoff.Schema.Check.Refines.{validate-eq-check}
use jsoff.Schema.Check.Prefix.{validate-relocate}
use jsoff.Schema.Conforms.{Conforms}
use jsoff.Schema.Conforms.Laws.{validate-Conforms}

-- A name that unfolds the validator.
validator : Unit {0}
unfolding validate scan range_hint check_range_float check_range_int scan_number scan_integer
    scan_string scan_items scan_others scan_missing scan_params new_error_pos push_path pop_path
    validator_scan float_lt float_le float_of_int parse_int64 parse_float itoa lookup
validator = tt

-- {"type": "object", "properties": {"name": string of at most 5 bytes, "ages": list of integers
-- from 0 below 150}, "requires": ["name"]}
abbrev person : Schema
person =
    object_schema no_mixin
      (prop "name" (string_schema no_mixin (some (pos 5)) none) (
        prop "ages"
          (list_schema no_mixin
            (integer_schema no_mixin (record {
              minimum = some (pos 0);
              maximum = some (pos 150);
              exclusive_minimum = none;
              exclusive_maximum = some true;
            }))
            none none)
          no_props))
      (("name", true) ∷ []) absent

abbrev ann : Any
ann = object (
    to_fields
      (("name", str "ann") ∷ ("ages", list (to_items (int (pos 7) ∷ number "149" ∷ []))) ∷ []))

abbrev too_old : Any
too_old = object (
    to_fields
      (("name", str "bob") ∷ ("ages", list (to_items (int (pos 7) ∷ number "150" ∷ []))) ∷ []))

abbrev at_root : SchemaValidator
at_root = new_schema_validator

abbrev in_params : SchemaValidator
in_params = record { paths = ".params" ∷ "[0]" ∷ []; hint = ""; error_path = "" }

abbrev old_age : Verdict
old_age = some (record { paths = ".ages" ∷ "[1]" ∷ []; hint = "value >= maximum" })

accepts_ann : validate person ann at_root ≡ done none at_root
unfolding validator
accepts_ann = refl

rejects_old : validate person too_old at_root ≡ done old_age at_root
unfolding validator
rejects_old = refl

requires_name :
    validate person (object (to_fields [])) at_root
    ≡ done (some (record { paths = ".name" ∷ []; hint = "required prop is not present" })) at_root
unfolding validator
requires_name = refl

-- The params of an RPC, one too many for the schema.
abbrev echo : Schema
echo =
    method_schema no_mixin (to_schemas (any_schema no_mixin ∷ [])) (present (null_schema no_mixin))
      absent

rejects_extra :
    validate echo (object (to_fields (("params", list (to_items (nil ∷ nil ∷ []))) ∷ []))) at_root
    ≡ done (some (record { paths = ".params" ∷ []; hint = "length of params mismatch" })) at_root
unfolding validator
rejects_extra = refl

validate-eq-check_example :
    validate person too_old in_params
    ≡ done (check person too_old (".params" ∷ "[0]" ∷ [])) in_params
validate-eq-check_example = validate-eq-check person too_old in_params

validate-Conforms_example :
    (validate person ann in_params ≡ done none in_params) ↔ Conforms person ann
validate-Conforms_example = validate-Conforms person ann in_params

validate-relocate_example :
    validate person too_old in_params
    ≡ done
        (some
          (record { paths = ".params" ∷ "[0]" ∷ ".ages" ∷ "[1]" ∷ []; hint = "value >= maximum" }))
        in_params
validate-relocate_example = validate-relocate person too_old in_params old_age rejects_old

person-IsComparable : IsComparable person
unfolding lookup
person-IsComparable = ((refl, (refl, tt)), (refl, tt), (tt, (tt, tt)), tt)

equal_refl_example : equal person person ≡ true
equal_refl_example = equal_refl person person-IsComparable

-- The same schema with its properties in another order.
abbrev person_again : Schema
person_again =
    object_schema no_mixin
      (prop "ages"
        (list_schema no_mixin
          (integer_schema no_mixin (record {
            minimum = some (pos 0);
            maximum = some (pos 150);
            exclusive_minimum = none;
            exclusive_maximum = some true;
          }))
          none none)
        (prop "name" (string_schema no_mixin (some (pos 5)) none) no_props))
      (("name", true) ∷ []) absent

again-IsComparable : IsComparable person_again
unfolding lookup
again-IsComparable = ((refl, (refl, tt)), (refl, tt), (tt, (tt, tt)), tt)

equals_again : equal person person_again ≡ true
unfolding equal each_equal sub_equal props_in pointer_equal values_in lookup
equals_again = refl

equal-validate_example :
    (validate person ann in_params ≡ done none in_params)
    ↔ (validate person_again ann in_params ≡ done none in_params)
equal-validate_example =
    equal-validate person person_again person-IsComparable again-IsComparable equals_again ann
      in_params

abbrev named_echo : Schema
named_echo = set_mixin echo (record { name = "echo"; description = "" })

-- {"params": []}, and the map that it is converted to.
abbrev untyped : Entries
untyped = ("params", list (to_items [])) ∷ []

abbrev typed_method : Entries
typed_method = ("params", list (to_items [])) ∷ ("type", str "method") ∷ []

types_method : convert_type_map (object (to_fields untyped)) ≡ some typed_method
unfolding convert_type_map guess_type lookup store
types_method = refl

-- An object schema with a property named "params".
abbrev object_node : Entries
object_node = ("properties", object (to_fields (("params", str "string") ∷ []))) ∷ []

finds_properties :
    lookup "properties" object_node ≡ some (object (to_fields (("params", str "string") ∷ [])))
unfolding lookup
finds_properties = refl

has_no_type : is_some (lookup "type" (("params", str "string") ∷ [])) ≡ false
unfolding lookup
has_no_type = refl

guesses_method : is_some (guess_type (("params", str "string") ∷ [])) ≡ true
unfolding guess_type lookup
guesses_method = refl

convert_attr_map_of_map-refuses_example :
    convert_attr_map_of_map object_node "properties" true ≡ none
convert_attr_map_of_map-refuses_example =
    convert_attr_map_of_map-refuses object_node (("params", str "string") ∷ []) "properties" true
      finds_properties has_no_type guesses_method

-- More than 1.5; 1.5 is 0x3ff8000000000000.
abbrev over_one_half : Range ℕ
over_one_half = record {
  minimum = some 0x3ff8000000000000;
  maximum = none;
  exclusive_minimum = some true;
  exclusive_maximum = none;
}

abbrev size : Mixin
size = record { name = "size"; description = "" }
