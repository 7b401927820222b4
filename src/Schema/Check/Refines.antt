-- ===== src/Schema/Check/Refines.antt =====
-- The stateful scan refines the check: same answer, stack restored, no panic.
pub mod Parts
use jsoff.Base.{
  ℕ, suc, ℤ, String, Bool, true, false, Option, none, some, List, [], ◌∷◌, ◌≡◌, refl, arith, ◌≤◌,
  lookup, is_some, length, drop, ltb, ltb-false, if◌then◌else◌, Bool-cases, inl, inr,
}
use jsoff.Value.{Any, nil, bool, int, float64, number, str, list, object, items, fields}
use jsoff.Value.Number.{parse_int64}
use jsoff.Schema.{
  Range, Schema, any_schema, null_schema, bool_schema, number_schema, integer_schema, string_schema,
  any_of, all_of, not_schema, list_schema, tuple_schema, method_schema, object_schema, Schemas,
  no_more, child, schemas, Maybe, absent, present, Props, no_props, prop, props,
}
use jsoff.Schema.Validator.{
  SchemaValidator, Run, Verdict, pure, done, ◌>>=◌, new_error_pos, validator_scan, or_next,
}
use jsoff.Schema.Validator.Laws.{Reads, validator_scan-Reads}
use jsoff.Schema.Scan.{
  index, dotted, list_of, list_length, tuple_length, check_range_float, check_range_int,
  checked_int, hinted, scan_number, scan_integer, scan_string, scan_items, scan_others,
  scan_missing, scan_found, scan_params, scan_message, scan, scan_any_of, scan_all_of,
  scan_children, scan_additional, scan_extra, scan_result, scan_props, scan_rest, or_hint, inverted,
  or_else, validate,
}
use jsoff.Schema.Check.{
  Answer, accept, reject, hint_answer, ◌then_check◌, unless_rejected, check_number, check_int,
  check_integer, check_string, check_items, check_others, check_found, check_params, check,
  check_any_of, check_all_of, check_children, check_additional, check_extra, check_result,
  check_props, check_rest, first_error, check_message, opposite, either_check,
}
use jsoff.Schema.Check.Refines.Parts.{
  new_error_pos-Reads, hinted-Reads, or_next-Reads, then_check-Reads, or_hint-Reads,
  scan_number-Reads, checked_int-Reads, scan_integer-Reads, scan_string-Reads, scan_items-Reads,
  scan_others-Reads, scan_found-Reads, scan_params-Reads, scan_given, check_given,
  scan_message-Reads, inverted-Reads, or_else-Reads, tuple_length-le, tuple-Reads,
}

mutual
  unfolding scan check

  scan-Reads : (s : Schema) (data' : Any) → Reads (scan s data') (check s data')
  scan-Reads (any_schema m) data' v = refl
  scan-Reads (null_schema m) nil v = refl
  scan-Reads (null_schema m) _ v = new_error_pos-Reads _ v
  scan-Reads (bool_schema m) (bool b) v = refl
  scan-Reads (bool_schema m) _ v = new_error_pos-Reads _ v
  scan-Reads (number_schema m r) data' v = scan_number-Reads r data' v
  scan-Reads (integer_schema m r) data' v = scan_integer-Reads r data' v
  scan-Reads (string_schema m longest shortest) data' v = scan_string-Reads longest shortest data' v
  scan-Reads (any_of m choices) data' v = scan_any_of-Reads choices data' v
  scan-Reads (all_of m choices) data' v = scan_all_of-Reads choices data' v
  scan-Reads (not_schema m s) data' v =
      rw (scan-Reads s data' v, ◌>>=◌) (inverted-Reads (check s data' v.paths) v)
  scan-Reads (list_schema m s fewest most) (list xs) v =
      or_hint-Reads (list_length fewest most (length (items xs))) _ _
        (scan_items-Reads (scan s) (check s) (scan-Reads s) 0 (items xs)) v
  scan-Reads (list_schema m s fewest most) _ v = new_error_pos-Reads _ v
  scan-Reads (tuple_schema m children more) (list xs) v =
      tuple-Reads (tuple_length more (length (items xs)) (length (schemas children))) _ _
        (λ e.
          then_check-Reads _ _ _ _
            (scan_children-Reads children 0 (items xs)
              (tuple_length-le more (length (items xs)) (length (schemas children)) e))
            (scan_additional-Reads more (length (schemas children)) (items xs)))
        v
  scan-Reads (tuple_schema m children more) _ v = new_error_pos-Reads _ v
  scan-Reads (method_schema m params returns more) (object obj) v =
      scan_message-Reads (scan_given params more) (scan_result returns) (check_given params more)
        (check_result returns)
        (λ given.
          scan_params-Reads (length given) (length (schemas params)) _ _ _ _
            (scan_children-Reads params 0 given)
            (scan_extra-Reads more (length (schemas params)) given))
        (scan_result-Reads returns) (list_of (lookup "params" (fields obj)))
        (lookup "result" (fields obj)) v
  scan-Reads (method_schema m params returns more) _ v = new_error_pos-Reads _ v
  scan-Reads (object_schema m properties requires more) (object obj) v =
      then_check-Reads _ _ _ _ (scan_props-Reads properties requires (fields obj))
        (scan_rest-Reads more (props properties) (fields obj)) v
  scan-Reads (object_schema m properties requires more) _ v = new_error_pos-Reads _ v

  scan_any_of-Reads :
      (ss : Schemas) (data' : Any) → Reads (scan_any_of ss data') (check_any_of ss data')
  scan_any_of-Reads no_more data' v = new_error_pos-Reads _ v
  scan_any_of-Reads (child s ss) data' v =
      rw (validator_scan-Reads (scan s) "" data' (check s data') (scan-Reads s data') v, ◌>>=◌)
        (or_else-Reads (check s data' v.paths) _ _ (scan_any_of-Reads ss data') v)

  scan_all_of-Reads :
      (ss : Schemas) (data' : Any) → Reads (scan_all_of ss data') (check_all_of ss data')
  scan_all_of-Reads no_more data' v = refl
  scan_all_of-Reads (child s ss) data' v =
      then_check-Reads _ _ _ _
        (validator_scan-Reads (scan s) "" data' (check s data') (scan-Reads s data'))
        (scan_all_of-Reads ss data') v

  scan_children-Reads :
      (ss : Schemas) (i : ℕ) (xs : List Any)
      → length (schemas ss) ≤ length xs
      → Reads (scan_children ss i xs) (check_children ss i xs)
  scan_children-Reads no_more i xs h v = refl
  scan_children-Reads (child s ss) i [] h v = absurd (omega arith)
  scan_children-Reads (child s ss) i (x ∷ xs) h v =
      then_check-Reads _ _ _ _
        (validator_scan-Reads (scan s) (index i) x (check s x) (scan-Reads s x))
        (scan_children-Reads ss (suc i) xs (omega arith)) v

  scan_additional-Reads :
      (more : Maybe) (n : ℕ) (xs : List Any)
      → Reads (scan_additional more n xs) (check_additional more n xs)
  scan_additional-Reads absent n xs v = refl
  scan_additional-Reads (present s) n xs v =
      scan_items-Reads (scan s) (check s) (scan-Reads s) n (drop n xs) v

  scan_extra-Reads :
      (more : Maybe) (n : ℕ) (given : List Any)
      → Reads (scan_extra more n given) (check_extra more n given)
  scan_extra-Reads absent n given v = new_error_pos-Reads _ v
  scan_extra-Reads (present s) n given v =
      scan_items-Reads (scan s) (check s) (scan-Reads s) n (drop n given) v

  scan_result-Reads :
      (returns : Maybe) (result : Any)
      → Reads (scan_result returns result) (check_result returns result)
  scan_result-Reads absent result v = refl
  scan_result-Reads (present s) result v =
      validator_scan-Reads (scan s) ".result" result (check s result) (scan-Reads s result) v

  scan_props-Reads :
      (ps : Props) (requires : List (String × Bool)) (obj : List (String × Any))
      → Reads (scan_props ps requires obj) (check_props ps requires obj)
  scan_props-Reads no_props requires obj v = refl
  scan_props-Reads (prop name s ps) requires obj v =
      then_check-Reads _ _ _ _
        (scan_found-Reads (scan s) (check s) (scan-Reads s) name (is_some (lookup name requires))
          (lookup name obj))
        (scan_props-Reads ps requires obj) v

  scan_rest-Reads :
      (more : Maybe) (checked : List (String × Schema)) (obj : List (String × Any))
      → Reads (scan_rest more checked obj) (check_rest more checked obj)
  scan_rest-Reads absent checked obj v = refl
  scan_rest-Reads (present s) checked obj v =
      scan_others-Reads (scan s) (check s) (scan-Reads s) checked obj v

-- For every schema, data and validator, `Validate` returns (it does not panic), leaves the
-- validator as it was (its stack restored), and answers what `check` says at the stack's path.
pub validate-eq-check :
    (s : Schema) (data' : Any) (v : SchemaValidator)
    → validate s data' v ≡ done (check s data' v.paths) v
unfolding validate
validate-eq-check s data' v =
    validator_scan-Reads (scan s) "" data' (check s data') (scan-Reads s data') v
