-- ===== src/Schema/Equal.antt =====
-- The methods `Equal` of schema/schema.go and the comparisons of pointers, slices and maps that they
-- call. Comparing with a schema of another type, or with a nil one, is false.
pub mod Reflexive
mod Keys
mod Parts
mod Agree
mod Objects
pub mod Sound
use jsoff.Base.{
  ℕ, ℤ, String, Bool, true, false, not, ◌&&◌, ◌==◌, Option, none, some, List, [], ◌∷◌, lookup,
  length, nat_eq, eq_ℤ,
}
use jsoff.Value.Number.{float_eq}
use jsoff.Schema.{
  Mixin, Range, Schema, any_schema, null_schema, bool_schema, number_schema, integer_schema,
  string_schema, any_of, all_of, not_schema, list_schema, tuple_schema, method_schema,
  object_schema, Schemas, no_more, child, schemas, Maybe, absent, present, Props, no_props, prop,
  props,
}

abbrev pub same_bool : Bool → Bool → Bool
same_bool true b = b
same_bool false b = not b

-- `PointerEqual`, over the comparison of the values.
unfoldable pub pointer_equal : {A : Type 0} → (A → A → Bool) → Option A → Option A → Bool
pointer_equal eq (some a) (some b) = eq a b
pointer_equal eq none none = true
pointer_equal eq _ _ = false

abbrev pub same_mixin : Mixin → Mixin → Bool
same_mixin m n = m.name == n.name && m.description == n.description

abbrev pub same_range : {A : Type 0} → (A → A → Bool) → Range A → Range A → Bool
same_range eq r t =
    pointer_equal eq r.maximum t.maximum
    && pointer_equal eq r.minimum t.minimum
    && pointer_equal same_bool r.exclusive_maximum t.exclusive_maximum
    && pointer_equal same_bool r.exclusive_minimum t.exclusive_minimum

abbrev pub same_flag : Option Bool → Bool → Bool
same_flag none b = false
same_flag (some c) b = same_bool b c

-- The loop of `SchemaMapValueEqual` over the entries of the first map.
unfoldable pub values_in : List (String × Bool) → List (String × Bool) → Bool
values_in [] n = true
values_in ((k, b) ∷ m) n = same_flag (lookup k n) b && values_in m n

-- `SchemaMapValueEqual`
abbrev pub value_map_equal : List (String × Bool) → List (String × Bool) → Bool
value_map_equal m n = nat_eq (length m) (length n) && values_in m n

-- `len(l1) == len(l2)` in `SchemaListEqual`
abbrev pub same_length : Schemas → Schemas → Bool
same_length ss ts = nat_eq (length (schemas ss)) (length (schemas ts))

-- `Equal`, `SchemaListEqual`, `SubSchemaEqual` and `SchemaMapEqual`
unfoldable mutual
  pub equal : Schema → Schema → Bool
  equal (any_schema m) (any_schema n) = same_mixin m n
  equal (null_schema m) (null_schema n) = same_mixin m n
  equal (bool_schema m) (bool_schema n) = same_mixin m n
  equal (number_schema m r) (number_schema n t) = same_mixin m n && same_range float_eq r t
  equal (integer_schema m r) (integer_schema n t) = same_mixin m n && same_range eq_ℤ r t
  equal (string_schema m longest shortest) (string_schema n longest' shortest') =
      same_mixin m n && pointer_equal eq_ℤ longest longest' && pointer_equal eq_ℤ shortest shortest'
  equal (any_of m ss) (any_of n ts) = same_mixin m n && (same_length ss ts && each_equal ss ts)
  equal (all_of m ss) (all_of n ts) = same_mixin m n && (same_length ss ts && each_equal ss ts)
  equal (not_schema m s) (not_schema n t) = same_mixin m n && equal s t
  equal (list_schema m s fewest most) (list_schema n t fewest' most') =
      same_mixin m n
      && pointer_equal eq_ℤ most most'
      && pointer_equal eq_ℤ fewest fewest'
      && equal s t
  equal (tuple_schema m ss more) (tuple_schema n ts more') =
      same_mixin m n && sub_equal more more' && (same_length ss ts && each_equal ss ts)
  equal (method_schema m ss returns more) (method_schema n ts returns' more') =
      same_mixin m n
      && sub_equal more more'
      && (same_length ss ts && each_equal ss ts)
      && sub_equal returns returns'
  equal (object_schema m ps requires more) (object_schema n qs requires' more') =
      same_mixin m n
      && (nat_eq (length (props ps)) (length (props qs)) && props_in ps (props qs))
      && value_map_equal requires requires'
      && sub_equal more more'
  equal _ _ = false

  -- `SchemaListEqual` after its test of the lengths.
  pub each_equal : Schemas → Schemas → Bool
  each_equal no_more ts = true
  each_equal (child s ss) no_more = false
  each_equal (child s ss) (child t ts) = equal s t && each_equal ss ts

  pub sub_equal : Maybe → Maybe → Bool
  sub_equal (present s) (present t) = equal s t
  sub_equal absent absent = true
  sub_equal _ _ = false

  -- The loop of `SchemaMapEqual` over the entries of the first map.
  pub props_in : Props → List (String × Schema) → Bool
  props_in no_props n = true
  props_in (prop k s ps) n = elim (lookup k n) [
    | none ↦ false
    | some t ↦ equal s t && props_in ps n
  ]
