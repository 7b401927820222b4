-- ===== src/Schema/Scan.antt =====
-- The `Scan` methods of schema/schema.go. Indexing past the end of a slice is `panic`; a map is
-- walked in the order of its list.
mod Leaf
use Prim.Native.String
use jsoff.Base.{
  ℕ, suc, ℤ, pos, String, Bool, false, not, ◌&&◌, Option, none, some, List, [], ◌∷◌, lookup,
  is_some, length, drop, ltb, nat_eq, ltb_ℤ, leb_ℤ, itoa, if◌then◌else◌,
}
use jsoff.Value.{Any, nil, bool, int, float64, number, str, list, object, items, fields}
use jsoff.Value.Number.{float_lt, float_le, float_of_int, parse_int64, parse_float}
use jsoff.Schema.{
  Range, Schema, any_schema, null_schema, bool_schema, number_schema, integer_schema, string_schema,
  any_of, all_of, not_schema, list_schema, tuple_schema, method_schema, object_schema, Schemas,
  no_more, child, schemas, Maybe, absent, present, Props, no_props, prop, props,
}
use jsoff.Schema.Validator.{
  Run, Verdict, pure, panic, ◌>>=◌, ◌>>◌, new_error_pos, push_path, pop_path, validator_scan,
  or_next,
}
unfoldable pub use Leaf.*

-- A loop that scans the items of a list, the first at position `i`, by one schema.
unfoldable pub scan_items : (Any → Run Verdict) → ℕ → List Any → Run Verdict
scan_items scan i [] = pure none
scan_items scan i (x ∷ xs) = do
  verdict ← validator_scan scan (index i) x
  or_next verdict (scan_items scan (suc i) xs)

-- The loop over the entries of an object that no property names.
unfoldable pub scan_others :
    (Any → Run Verdict) → List (String × Schema) → List (String × Any) → Run Verdict
scan_others scan checked [] = pure none
scan_others scan checked ((k, v) ∷ obj) =
    let rest = scan_others scan checked obj in
    if is_some (lookup k checked)
    then rest
    else do verdict ← validator_scan scan (dotted k) v; or_next verdict rest

-- What `ObjectSchema.Scan` does for a property that the object lacks.
unfoldable pub scan_missing : String → Bool → Run Verdict
scan_missing name required =
    if required
    then (do
      push_path (dotted name)
      verdict ← new_error_pos "required prop is not present"
      pop_path (dotted name)
      pure verdict)
    else pure none

abbrev pub scan_found : (Any → Run Verdict) → String → Bool → Option Any → Run Verdict
scan_found scan name required (some v) = validator_scan scan (dotted name) v
scan_found scan name required none = scan_missing name required

abbrev pub list_of : Option Any → Option (List Any)
list_of (some (list xs)) = some (items xs)
list_of (some _) = none
list_of none = none

-- `ScanParams`: `have` params are given for `want` schemas; `first` is its loop over the schemas
-- and `extra` the handling of the params after those. The pop of ".params" is deferred.
unfoldable pub scan_params : ℕ → ℕ → Run Verdict → Run Verdict → Run Verdict
scan_params have want first extra = do
  push_path ".params"
  verdict ←
      if ltb have want
      then new_error_pos "length of params mismatch"
      else (do early ← first; or_next early (if ltb want have then extra else pure none))
  pop_path ".params"
  pure verdict

-- `MethodSchema.Scan` over an object, given its methods `ScanParams` and `ScanResult`.
abbrev pub scan_message :
    (List Any → Run Verdict) → (Any → Run Verdict) → Option (List Any) → Option Any → Run Verdict
scan_message scan_params scan_result (some params) result = scan_params params
scan_message scan_params scan_result none (some result) = scan_result result
scan_message scan_params scan_result none none = new_error_pos "data is not a JSONRPC message"

-- The tests of a tuple's length: equal, or at least as long when there are additional items.
abbrev pub tuple_length : Maybe → ℕ → ℕ → Option String
tuple_length absent have want =
    if nat_eq have want then none else some "tuple items length mismatch"
tuple_length (present _) have want =
    if ltb have want then some "data items length smaller than expected" else none

abbrev pub or_hint : Option String → Run Verdict → Run Verdict
or_hint none next = next
or_hint (some hint) next = new_error_pos hint

abbrev pub list_length : Option ℤ → Option ℤ → ℕ → Option String
list_length min_items max_items n =
    if over max_items n
    then some "len(items) > maxItems"
    else if short_of min_items n
    then some "len(items) < minItems"
    else none

abbrev pub inverted : Verdict → Run Verdict
inverted none = new_error_pos "not validator failed"
inverted (some _) = pure none

abbrev pub or_else : Verdict → Run Verdict → Run Verdict
or_else none next = pure none
or_else (some _) next = next

-- The method `Scan` of each schema, with the loops over the schemas that it holds.
unfoldable mutual
  pub scan : Schema → Any → Run Verdict
  scan (any_schema m) data' = pure none
  scan (null_schema m) nil = pure none
  scan (null_schema m) _ = new_error_pos "data is not null"
  scan (bool_schema m) (bool b) = pure none
  scan (bool_schema m) _ = new_error_pos "data is not bool"
  scan (number_schema m r) data' = scan_number r data'
  scan (integer_schema m r) data' = scan_integer r data'
  scan (string_schema m longest shortest) data' = scan_string longest shortest data'
  scan (any_of m choices) data' = scan_any_of choices data'
  scan (all_of m choices) data' = scan_all_of choices data'
  scan (not_schema m s) data' = do verdict ← scan s data'; inverted verdict
  scan (list_schema m s fewest most) (list xs) =
      or_hint (list_length fewest most (length (items xs))) (scan_items (scan s) 0 (items xs))
  scan (list_schema m s fewest most) _ = new_error_pos "data is not a list"
  scan (tuple_schema m children more) (list xs) =
      or_hint (tuple_length more (length (items xs)) (length (schemas children))) (do
        verdict ← scan_children children 0 (items xs)
        or_next verdict (scan_additional more (length (schemas children)) (items xs)))
  scan (tuple_schema m children more) _ = new_error_pos "data is not a list"
  scan (method_schema m params returns more) (object obj) =
      scan_message
        (λ given.
          scan_params (length given) (length (schemas params)) (scan_children params 0 given)
            (scan_extra more (length (schemas params)) given))
        (scan_result returns) (list_of (lookup "params" (fields obj)))
        (lookup "result" (fields obj))
  scan (method_schema m params returns more) _ = new_error_pos "data is not object"
  scan (object_schema m properties requires more) (object obj) = do
    verdict ← scan_props properties requires (fields obj)
    or_next verdict (scan_rest more (props properties) (fields obj))
  scan (object_schema m properties requires more) _ = new_error_pos "data is not an object"

  pub scan_any_of : Schemas → Any → Run Verdict
  scan_any_of no_more data' = new_error_pos "data is not any of the types"
  scan_any_of (child s ss) data' = do
    verdict ← validator_scan (scan s) "" data'
    or_else verdict (scan_any_of ss data')

  pub scan_all_of : Schemas → Any → Run Verdict
  scan_all_of no_more data' = pure none
  scan_all_of (child s ss) data' = do
    verdict ← validator_scan (scan s) "" data'
    or_next verdict (scan_all_of ss data')

  -- The loop `for i, schema := range children` that reads `items[i]`, from `i` on.
  pub scan_children : Schemas → ℕ → List Any → Run Verdict
  scan_children no_more i xs = pure none
  scan_children (child s ss) i [] = λ v. panic
  scan_children (child s ss) i (x ∷ xs) = do
    verdict ← validator_scan (scan s) (index i) x
    or_next verdict (scan_children ss (suc i) xs)

  -- The loop over `items[n:]` by the additional schema.
  pub scan_additional : Maybe → ℕ → List Any → Run Verdict
  scan_additional absent n xs = pure none
  scan_additional (present s) n xs = scan_items (scan s) n (drop n xs)

  pub scan_extra : Maybe → ℕ → List Any → Run Verdict
  scan_extra absent n given = new_error_pos "length of params mismatch"
  scan_extra (present s) n given = scan_items (scan s) n (drop n given)

  pub scan_result : Maybe → Any → Run Verdict
  scan_result absent result = pure none
  scan_result (present s) result = validator_scan (scan s) ".result" result

  pub scan_props : Props → List (String × Bool) → List (String × Any) → Run Verdict
  scan_props no_props requires obj = pure none
  scan_props (prop name s ps) requires obj = do
    verdict ← scan_found (scan s) name (is_some (lookup name requires)) (lookup name obj)
    or_next verdict (scan_props ps requires obj)

  pub scan_rest : Maybe → List (String × Schema) → List (String × Any) → Run Verdict
  scan_rest absent checked obj = pure none
  scan_rest (present s) checked obj = scan_others (scan s) checked obj

-- `Validate`
unfoldable pub validate : Schema → Any → Run Verdict
validate s data' = validator_scan (scan s) "" data'
