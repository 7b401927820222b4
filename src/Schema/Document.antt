-- ===== src/Schema/Document.antt =====
-- The methods `Type` and `Map` of schema/schema.go: a schema as a JSON document. A slice of maps or
-- of strings is the list of its elements.
pub mod Laws
use jsoff.Base.{ℕ, ℤ, String, Bool, Option, none, some, List, [], ◌∷◌, ◌==◌, store, if◌then◌else◌}
use jsoff.Value.{
  Any, bool, int, float64, str, list, object, Items, end, item, Fields, to_items, to_fields,
}
use jsoff.Schema.{
  Mixin, Range, Schema, any_schema, null_schema, bool_schema, number_schema, integer_schema,
  string_schema, any_of, all_of, not_schema, list_schema, tuple_schema, method_schema,
  object_schema, Schemas, no_more, child, Maybe, absent, present, Props, no_props, prop,
}

abbrev pub Entries : Type 0
Entries = List (String × Any)

-- `Type`
unfoldable pub type_of : Schema → String
type_of (any_schema m) = "any"
type_of (null_schema m) = "null"
type_of (bool_schema m) = "bool"
type_of (number_schema m r) = "number"
type_of (integer_schema m r) = "integer"
type_of (string_schema m longest shortest) = "string"
type_of (any_of m choices) = "anyOf"
type_of (all_of m choices) = "allOf"
type_of (not_schema m s) = "not"
type_of (list_schema m s fewest most) = "list"
type_of (tuple_schema m children more) = "list"
type_of (method_schema m params returns more) = "method"
type_of (object_schema m properties requires more) = "object"

abbrev pub put_text : String → String → Entries → Entries
put_text k t m = if t == "" then m else store k (str t) m

-- `rebuildType`
unfoldable pub rebuild_type : Mixin → String → Entries
rebuild_type m kind =
    put_text "description" m.description (put_text "name" m.name (("type", str kind) ∷ []))

-- A bound that is set, and after it whether it is exclusive.
abbrev pub put_bound : String → String → Option Any → Option Bool → Entries → Entries
put_bound k exclusive none ex m = m
put_bound k exclusive (some v) none m = store k v m
put_bound k exclusive (some v) (some b) m = store exclusive (bool b) (store k v m)

abbrev pub float_bound : Option ℕ → Option Any
float_bound none = none
float_bound (some f) = some (float64 f)

abbrev pub int_bound : Option ℤ → Option Any
int_bound none = none
int_bound (some n) = some (int n)

abbrev pub put_range : {A : Type 0} → (Option A → Option Any) → Range A → Entries → Entries
put_range bound r m =
    put_bound "minimum" "exclusiveMinimum" (bound r.minimum) r.exclusive_minimum
      (put_bound "maximum" "exclusiveMaximum" (bound r.maximum) r.exclusive_maximum m)

abbrev pub put_if : String → Option Any → Entries → Entries
put_if k none m = m
put_if k (some v) m = store k v m

abbrev pub names : List (String × Bool) → List Any
names [] = []
names ((k, b) ∷ m) = str k ∷ names m

-- `Map`, and its loops over the schemas that a schema holds.
unfoldable mutual
  pub entries : Schema → Entries
  entries (any_schema m) = rebuild_type m "any"
  entries (null_schema m) = rebuild_type m "null"
  entries (bool_schema m) = rebuild_type m "bool"
  entries (number_schema m r) = put_range float_bound r (rebuild_type m "number")
  entries (integer_schema m r) = put_range int_bound r (rebuild_type m "integer")
  entries (string_schema m longest shortest) = rebuild_type m "string"
  entries (any_of m choices) = store "anyOf" (list (each_map choices)) (rebuild_type m "anyOf")
  entries (all_of m choices) = store "allOf" (list (each_map choices)) (rebuild_type m "allOf")
  entries (not_schema m s) = store "not" (object (to_fields (entries s))) (rebuild_type m "not")
  entries (list_schema m s fewest most) =
      store "items" (object (to_fields (entries s))) (rebuild_type m "list")
  entries (tuple_schema m children more) =
      store "items" (list (each_map children)) (rebuild_type m "list")
  entries (method_schema m params returns more) = put_if "additionalParams" (sub_map more) (
      put_if "returns" (sub_map returns)
        (store "params" (list (each_map params)) (rebuild_type m "method")))
  entries (object_schema m properties requires more) =
      put_if "additionalProperties" (sub_map more) (
        store "requires" (list (to_items (names requires))) (
          store "properties" (object (to_fields (prop_maps properties))) (rebuild_type m "object")))

  pub each_map : Schemas → Items
  each_map no_more = end
  each_map (child s ss) = item (object (to_fields (entries s))) (each_map ss)

  pub sub_map : Maybe → Option Any
  sub_map absent = none
  sub_map (present s) = some (object (to_fields (entries s)))

  pub prop_maps : Props → Entries
  prop_maps no_props = []
  prop_maps (prop k s ps) = store k (object (to_fields (entries s))) (prop_maps ps)

-- `Map`
abbrev pub schema_map : Schema → Any
schema_map s = object (to_fields (entries s))
