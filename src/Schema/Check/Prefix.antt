-- ===== src/Schema/Check/Prefix.antt =====
-- Errors name the path at which the data stands: scanning below a path gives the errors of a scan
-- from the root, with that path in front.
pub mod Parts
use mathlib.Core.List.{append-nil, append_assoc}
use jsoff.Base.{
  ℕ, suc, ℤ, String, Bool, true, false, Option, none, some, List, [], ◌∷◌, ◌++◌, ◌≡◌, refl, ap, sym,
  ◌∙◌, arith, lookup, is_some, length, drop, ltb, if◌then◌else◌,
}
use jsoff.Value.{Any, nil, bool, int, float64, number, str, list, object, items, fields}
use jsoff.Value.Number.{parse_int64}
use jsoff.Schema.{
  Range, Schema, any_schema, null_schema, bool_schema, number_schema, integer_schema, string_schema,
  any_of, all_of, not_schema, list_schema, tuple_schema, method_schema, object_schema, Schemas,
  no_more, child, schemas, Maybe, absent, present, Props, no_props, prop, props,
}
use jsoff.Schema.Validator.{SchemaValidator, Verdict, done, new_schema_validator}
use jsoff.Schema.Validator.Laws.{below}
use jsoff.Schema.Scan.{validate, index, dotted, list_of, list_length, tuple_length}
use jsoff.Schema.Check.{
  Answer, accept, reject, hint_answer, ◌then_check◌, unless_rejected, at_segment, check_number,
  check_int, check_integer, check_string, check_items, check_others, check_found, check_params,
  check_message, check, check_any_of, check_all_of, check_children, check_additional, check_extra,
  check_result, check_props, check_rest, opposite, either_check,
}
use jsoff.Schema.Check.Refines.{validate-eq-check}
use jsoff.Schema.Check.Prefix.Parts.{
  relocate, IsUniform, accept-IsUniform, reject-IsUniform, then_check-IsUniform,
  either_check-IsUniform, opposite-IsUniform, hint_answer-IsUniform, unless_rejected-IsUniform,
  if-IsUniform, below-append, at_segment-IsUniform, check_number-IsUniform, check_int-IsUniform,
  check_integer-IsUniform, check_string-IsUniform, check_items-IsUniform, check_others-IsUniform,
  check_found-IsUniform, check_params-IsUniform, check_message-IsUniform,
}

mutual
  unfolding check

  check-IsUniform : (s : Schema) (d : Any) → IsUniform (check s d)
  check-IsUniform (any_schema m) d base at = refl
  check-IsUniform (null_schema m) nil base at = refl
  check-IsUniform (null_schema m) _ base at = refl
  check-IsUniform (bool_schema m) (bool b) base at = refl
  check-IsUniform (bool_schema m) _ base at = refl
  check-IsUniform (number_schema m r) d base at = check_number-IsUniform r d base at
  check-IsUniform (integer_schema m r) d base at = check_integer-IsUniform r d base at
  check-IsUniform (string_schema m longest shortest) d base at =
      check_string-IsUniform longest shortest d base at
  check-IsUniform (any_of m choices) d base at = check_any_of-IsUniform choices d base at
  check-IsUniform (all_of m choices) d base at = check_all_of-IsUniform choices d base at
  check-IsUniform (not_schema m s) d base at =
      opposite-IsUniform (check s d) (check-IsUniform s d) base at
  check-IsUniform (list_schema m s fewest most) (list xs) base at =
      unless_rejected-IsUniform (list_length fewest most (length (items xs))) _
        (check_items-IsUniform (check s) (check-IsUniform s) 0 (items xs)) base at
  check-IsUniform (list_schema m s fewest most) _ base at = refl
  check-IsUniform (tuple_schema m children more) (list xs) base at =
      unless_rejected-IsUniform (tuple_length more (length (items xs)) (length (schemas children)))
        _
        (then_check-IsUniform _ _ (check_children-IsUniform children 0 (items xs))
          (check_additional-IsUniform more (length (schemas children)) (items xs)))
        base at
  check-IsUniform (tuple_schema m children more) _ base at = refl
  check-IsUniform (method_schema m params returns more) (object obj) base at =
      check_message-IsUniform _ (check_result returns)
        (λ given.
          check_params-IsUniform (length given) (length (schemas params)) _ _
            (check_children-IsUniform params 0 given)
            (check_extra-IsUniform more (length (schemas params)) given))
        (check_result-IsUniform returns) (list_of (lookup "params" (fields obj)))
        (lookup "result" (fields obj)) base at
  check-IsUniform (method_schema m params returns more) _ base at = refl
  check-IsUniform (object_schema m properties requires more) (object obj) base at =
      then_check-IsUniform _ _ (check_props-IsUniform properties requires (fields obj))
        (check_rest-IsUniform more (props properties) (fields obj)) base at
  check-IsUniform (object_schema m properties requires more) _ base at = refl

  check_any_of-IsUniform : (ss : Schemas) (d : Any) → IsUniform (check_any_of ss d)
  check_any_of-IsUniform no_more d base at = refl
  check_any_of-IsUniform (child s ss) d base at =
      either_check-IsUniform (check s d) _ (check-IsUniform s d) (check_any_of-IsUniform ss d) base
        at

  check_all_of-IsUniform : (ss : Schemas) (d : Any) → IsUniform (check_all_of ss d)
  check_all_of-IsUniform no_more d base at = refl
  check_all_of-IsUniform (child s ss) d base at =
      then_check-IsUniform (check s d) _ (check-IsUniform s d) (check_all_of-IsUniform ss d) base at

  check_children-IsUniform :
      (ss : Schemas) (i : ℕ) (xs : List Any) → IsUniform (check_children ss i xs)
  check_children-IsUniform no_more i xs base at = refl
  check_children-IsUniform (child s ss) i [] base at = refl
  check_children-IsUniform (child s ss) i (x ∷ xs) base at =
      then_check-IsUniform _ _ (at_segment-IsUniform (index i) (check s x) (check-IsUniform s x))
        (check_children-IsUniform ss (suc i) xs) base at

  check_additional-IsUniform :
      (more : Maybe) (n : ℕ) (xs : List Any) → IsUniform (check_additional more n xs)
  check_additional-IsUniform absent n xs base at = refl
  check_additional-IsUniform (present s) n xs base at =
      check_items-IsUniform (check s) (check-IsUniform s) n (drop n xs) base at

  check_extra-IsUniform :
      (more : Maybe) (n : ℕ) (given : List Any) → IsUniform (check_extra more n given)
  check_extra-IsUniform absent n given base at = refl
  check_extra-IsUniform (present s) n given base at =
      check_items-IsUniform (check s) (check-IsUniform s) n (drop n given) base at

  check_result-IsUniform : (returns : Maybe) (r : Any) → IsUniform (check_result returns r)
  check_result-IsUniform absent r base at = refl
  check_result-IsUniform (present s) r base at =
      at_segment-IsUniform ".result" (check s r) (check-IsUniform s r) base at

  check_props-IsUniform :
      (ps : Props) (requires : List (String × Bool)) (obj : List (String × Any))
      → IsUniform (check_props ps requires obj)
  check_props-IsUniform no_props requires obj base at = refl
  check_props-IsUniform (prop name s ps) requires obj base at =
      then_check-IsUniform _ _
        (check_found-IsUniform (check s) (check-IsUniform s) name (is_some (lookup name requires))
          (lookup name obj))
        (check_props-IsUniform ps requires obj) base at

  check_rest-IsUniform :
      (more : Maybe) (checked : List (String × Schema)) (obj : List (String × Any))
      → IsUniform (check_rest more checked obj)
  check_rest-IsUniform absent checked obj base at = refl
  check_rest-IsUniform (present s) checked obj base at =
      check_others-IsUniform (check s) (check-IsUniform s) checked obj base at

-- What `Validate` answers with an empty stack it answers with any stack, with the segments of the
-- stack in front of the path of the error, if there is one.
pub validate-relocate :
    (s : Schema) (data' : Any) (v : SchemaValidator) (verdict : Verdict)
    → validate s data' new_schema_validator ≡ done verdict new_schema_validator
    → validate s data' v ≡ done (relocate v.paths verdict) v
validate-relocate s data' v verdict e =
    let fresh : check s data' [] ≡ verdict = cc (validate-eq-check s data' new_schema_validator) in
    rw (validate-eq-check s data' v) (
      ap (λ a. done a v)
        (ap (check s data') (sym (append-nil v.paths))
          ∙ check-IsUniform s data' v.paths []
          ∙ ap (relocate v.paths) fresh))
