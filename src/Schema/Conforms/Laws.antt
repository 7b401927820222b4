-- ===== src/Schema/Conforms/Laws.antt =====
-- The check accepts exactly the data that conforms to the schema.
pub mod Ranges
pub mod Parts
use Prim.Native.String
use jsoff.Base.{
  ℕ, zero, suc, ℤ, ltb_ℤ, leb_ℤ, ◌≤ℤ◌, ◌<ℤ◌, String, Bool, true, false, Option, none, some, List,
  [], ◌∷◌, ◌≡◌, refl, ap, ◌↔◌, ◌⊎◌, inl, inr, ◌≤◌, lookup, is_some, length, drop, All, arith, ltb,
  ltb-true, ltb-false, if◌then◌else◌, Bool-cases,
}
use jsoff.Value.{Any, nil, bool, int, float64, number, str, list, object, items, fields}
use jsoff.Value.Number.{float_lt, float_le, parse_int64}
use jsoff.Schema.{
  Range, Schema, any_schema, null_schema, bool_schema, number_schema, integer_schema, string_schema,
  any_of, all_of, not_schema, list_schema, tuple_schema, method_schema, object_schema, Schemas,
  no_more, child, schemas, Maybe, absent, present, Props, no_props, prop, props,
}
use jsoff.Schema.Validator.{SchemaValidator, done}
use jsoff.Schema.Check.Refines.{validate-eq-check}
use jsoff.Schema.Scan.{
  validate, index, dotted, list_of, flag, first_hint, above, under, range_hint, list_length,
  tuple_length,
}
use jsoff.Schema.Check.{
  Answer, accept, reject, hint_answer, ◌then_check◌, unless_rejected, at_segment, check_number,
  check_int, check_integer, check_string, check_items, check_others, check_found, check_params,
  check_message, check, check_any_of, check_all_of, check_children, check_additional, check_extra,
  check_result, check_props, check_rest, opposite, either_check,
}
use jsoff.Schema.Conforms.{
  Given, IntInRange, FloatInRange, float_value, int_value, Has, LengthIn, TupleLength, Entry,
  MessageBody, Conforms, ConformsSome, ConformsAll, ConformsEach, ConformsMore, ConformsExtra,
  ConformsResult, ConformsProps, ConformsOthers,
}
use jsoff.Schema.Conforms.Laws.Ranges.{
  Accepts, accept-Accepts, reject-Accepts, then_check-Accepts, either_check-Accepts,
  opposite-Accepts, hint_answer-Accepts, unless_rejected-Accepts, first_hint_iff, above_int,
  under_int, int_range, above_float, under_float, float_range, list_length_iff, tuple_length_iff,
}
use jsoff.Schema.Conforms.Laws.Parts.{
  hint-Accepts, check_number-Accepts, check_int-Accepts, check_integer-Accepts,
  check_string-Accepts, unchecked-Accepts, check_items-Accepts, check_others-Accepts,
  check_found-Accepts, if_extra-Accepts, check_params-Accepts, drop-eq-nil, Extra, Extra-iff,
  flat-Accepts, message-Accepts,
}

mutual
  unfolding check check_string

  check-Accepts : (s : Schema) (d : Any) → Accepts (check s d) (Conforms s d)
  check-Accepts (any_schema m) d at = accept-Accepts at
  check-Accepts (null_schema m) nil at = (λ _. refl, λ _. refl)
  check-Accepts (null_schema m) _ at = (λ e. cc, λ e. cc)
  check-Accepts (bool_schema m) (bool b) at = (λ _. (b, refl), λ _. refl)
  check-Accepts (bool_schema m) _ at = (λ e. cc, λ (b, e). cc)
  check-Accepts (number_schema m r) d at = check_number-Accepts r d at
  check-Accepts (integer_schema m r) d at = check_integer-Accepts r d at
  check-Accepts (string_schema m longest shortest) (str s) at =
      check_string-Accepts longest shortest s at
  check-Accepts (string_schema m longest shortest) _ at = reject-Accepts _ at
  check-Accepts (any_of m choices) d at = check_any_of-Accepts choices d at
  check-Accepts (all_of m choices) d at = check_all_of-Accepts choices d at
  check-Accepts (not_schema m s) d at = opposite-Accepts (check s d) (check-Accepts s d) at
  check-Accepts (list_schema m s fewest most) (list xs) at =
      unless_rejected-Accepts (list_length fewest most (length (items xs))) _
        (list_length_iff fewest most (length (items xs)))
        (check_items-Accepts (check s) (check-Accepts s) 0 (items xs)) at
  check-Accepts (list_schema m s fewest most) _ at = reject-Accepts _ at
  check-Accepts (tuple_schema m children more) (list xs) at =
      flat-Accepts _
        (unless_rejected-Accepts (tuple_length more (length (items xs)) (length (schemas children)))
          _ (tuple_length_iff more (length (items xs)) (length (schemas children)))
          (then_check-Accepts _ _ (check_children-Accepts children 0 (items xs))
            (check_additional-Accepts more (length (schemas children)) (items xs))))
        at
  check-Accepts (tuple_schema m children more) _ at = reject-Accepts _ at
  check-Accepts (method_schema m params returns more) (object obj) at =
      message-Accepts _ (check_result returns)
        (λ given.
          check_params-Accepts (length given) (length (schemas params)) _ _
            (λ _. check_children-Accepts params 0 given)
            (check_extra-Accepts more (length (schemas params)) given)
            (Extra-iff more (length (schemas params)) given))
        (check_result-Accepts returns) (list_of (lookup "params" (fields obj)))
        (lookup "result" (fields obj)) at
  check-Accepts (method_schema m params returns more) _ at = reject-Accepts _ at
  check-Accepts (object_schema m properties requires more) (object obj) at =
      then_check-Accepts _ _ (check_props-Accepts properties requires (fields obj))
        (check_rest-Accepts more (props properties) (fields obj)) at
  check-Accepts (object_schema m properties requires more) _ at = reject-Accepts _ at

  check_any_of-Accepts : (ss : Schemas) (d : Any) → Accepts (check_any_of ss d) (ConformsSome ss d)
  check_any_of-Accepts no_more d at = reject-Accepts _ at
  check_any_of-Accepts (child s ss) d at =
      either_check-Accepts (check s d) _ (check-Accepts s d) (check_any_of-Accepts ss d) at

  check_all_of-Accepts : (ss : Schemas) (d : Any) → Accepts (check_all_of ss d) (ConformsAll ss d)
  check_all_of-Accepts no_more d at = accept-Accepts at
  check_all_of-Accepts (child s ss) d at =
      then_check-Accepts (check s d) _ (check-Accepts s d) (check_all_of-Accepts ss d) at

  check_children-Accepts :
      (ss : Schemas) (i : ℕ) (xs : List Any) → Accepts (check_children ss i xs) (ConformsEach ss xs)
  check_children-Accepts no_more i xs at = accept-Accepts at
  check_children-Accepts (child s ss) i [] at = accept-Accepts at
  check_children-Accepts (child s ss) i (x ∷ xs) at =
      then_check-Accepts (at_segment (index i) (check s x)) _ (λ at'. check-Accepts s x _)
        (check_children-Accepts ss (suc i) xs) at

  check_additional-Accepts :
      (more : Maybe) (n : ℕ) (xs : List Any)
      → Accepts (check_additional more n xs) (ConformsMore more (drop n xs))
  check_additional-Accepts absent n xs at = accept-Accepts at
  check_additional-Accepts (present s) n xs at =
      check_items-Accepts (check s) (check-Accepts s) n (drop n xs) at

  check_extra-Accepts :
      (more : Maybe) (n : ℕ) (given : List Any)
      → Accepts (check_extra more n given) (Extra more (drop n given))
  check_extra-Accepts absent n given at = reject-Accepts _ at
  check_extra-Accepts (present s) n given at =
      check_items-Accepts (check s) (check-Accepts s) n (drop n given) at

  check_result-Accepts :
      (returns : Maybe) (r : Any) → Accepts (check_result returns r) (ConformsResult returns r)
  check_result-Accepts absent r at = accept-Accepts at
  check_result-Accepts (present s) r at = check-Accepts s r _

  check_props-Accepts :
      (ps : Props) (requires : List (String × Bool)) (obj : List (String × Any))
      → Accepts (check_props ps requires obj) (ConformsProps ps requires obj)
  check_props-Accepts no_props requires obj at = accept-Accepts at
  check_props-Accepts (prop name s ps) requires obj at =
      then_check-Accepts _ _
        (check_found-Accepts (check s) (check-Accepts s) name (lookup name requires)
          (lookup name obj))
        (check_props-Accepts ps requires obj) at

  check_rest-Accepts :
      (more : Maybe) (checked : List (String × Schema)) (obj : List (String × Any))
      → Accepts (check_rest more checked obj) (ConformsOthers more checked obj)
  check_rest-Accepts absent checked obj at = accept-Accepts at
  check_rest-Accepts (present s) checked obj at =
      check_others-Accepts (check s) (check-Accepts s) checked obj at

-- `Validate` returns no error, with the validator as it was, exactly if the data conforms to the
-- schema.
pub validate-Conforms :
    (s : Schema) (data' : Any) (v : SchemaValidator)
    → (validate s data' v ≡ done none v) ↔ Conforms s data'
validate-Conforms s data' v = rw (validate-eq-check s data' v) (
  λ e. (check-Accepts s data' v.paths).0 (cc),
  λ h. ap (λ a. done a v) ((check-Accepts s data' v.paths).1 h),
)
