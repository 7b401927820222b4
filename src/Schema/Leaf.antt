-- ===== src/Schema/Leaf.antt =====
-- schema/builder.go: building the schemas that hold no others, and the names of a schema.
pub mod RoundTrip
use jsoff.Base.{String, Bool, ℤ, pos, negsuc, Option, none, some, List, [], ◌∷◌, ◌++◌, lookup}
use jsoff.Value.{Any, str}
use jsoff.Result.{Result, ok, err, build, ◌>>=◌}
use jsoff.Schema.{
  Schema, Mixin, no_mixin, Range, number_schema, integer_schema, string_schema, mixin, set_mixin,
}
use jsoff.Schema.Document.{Entries}
use jsoff.Schema.Convert.{convert_attr_float, convert_attr_int, convert_attr_bool}

-- The four attributes that a number and an integer schema share.
abbrev pub build_range : {A : Type 0} → (Entries → String → Bool → Option A) → Entries → Range A
build_range convert node = record {
  minimum = convert node "minimum" Bool.false;
  maximum = convert node "maximum" Bool.false;
  exclusive_minimum = convert_attr_bool node "exclusiveMinimum" Bool.false;
  exclusive_maximum = convert_attr_bool node "exclusiveMaximum" Bool.false;
}

unfoldable pub build_number_schema : Entries → Schema
build_number_schema node = number_schema no_mixin (build_range convert_attr_float node)

unfoldable pub build_integer_schema : Entries → Schema
build_integer_schema node = integer_schema no_mixin (build_range convert_attr_int node)

-- A bound that is set if it is not negative.
abbrev pub non_negative : Option ℤ → Option ℤ
non_negative (some (pos n)) = some (pos n)
non_negative _ = none

unfoldable pub build_string_schema : Entries → Schema
build_string_schema node =
    string_schema no_mixin (non_negative (convert_attr_int node "maxLength" Bool.false))
      (non_negative (convert_attr_int node "minLength" Bool.false))

abbrev pub set_name : Option Any → Schema → List String → Result Schema
set_name none s paths = ok s
set_name (some (str t)) s paths = ok (set_mixin s (record (mixin s) { name = t }))
set_name (some _) s paths = err (build "name must be string" (paths ++ ".name" ∷ []))

abbrev pub set_description : Option Any → Schema → List String → Result Schema
set_description none s paths = ok s
set_description (some (str t)) s paths = ok (set_mixin s (record (mixin s) { description = t }))
set_description (some _) s paths =
    err (build "decsription must be string" (paths ++ ".description" ∷ []))

-- `buildMixin`
unfoldable pub build_mixin : Schema → Entries → List String → Result Schema
build_mixin s node paths = do
  named ← set_name (lookup "name" node) s paths
  set_description (lookup "description" node) named paths
