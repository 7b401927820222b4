-- ===== src/Schema/Check.antt =====
-- Scanning without the stack: what `Scan` answers, as a function of the path at which the data
-- stands. There is nothing to push, to pop or to restore, and nothing that can panic.
pub mod Refines
pub mod Prefix
use Prim.Native.String
use jsoff.Base.{
  ℕ, suc, ℤ, String, Bool, true, false, Option, none, some, List, [], ◌∷◌, ◌++◌, lookup, is_some,
  length, drop, ltb, ltb_ℤ, leb_ℤ, if◌then◌else◌,
}
use jsoff.Value.{Any, nil, bool, int, float64, number, str, list, object, items, fields}
use jsoff.Value.Number.{float_lt, float_le, float_of_int, parse_int64, parse_float}
use jsoff.Schema.{
  Range, Schema, any_schema, null_schema, bool_schema, number_schema, integer_schema, string_schema,
  any_of, all_of, not_schema, list_schema, tuple_schema, method_schema, object_schema, Schemas,
  no_more, child, schemas, Maybe, absent, present, Props, no_props, prop, props,
}
use jsoff.Schema.Validator.{Verdict}
use jsoff.Schema.Validator.Laws.{below}
use jsoff.Schema.Scan.{
  index, dotted, range_hint, over, short_of, list_of, list_length, tuple_length,
}

-- The answer at a path.
abbrev pub Answer : Type 0
Answer = List String → Verdict

abbrev pub accept : Answer
accept at = none

abbrev pub reject : String → Answer
reject hint at = some (record { paths = at; hint = hint })

abbrev pub hint_answer : Option String → Answer
hint_answer none = accept
hint_answer (some hint) = reject hint

abbrev pub first_error : Verdict → Verdict → Verdict
first_error none later = later
first_error (some e) later = some e

infixr 20 ◌then_check◌
abbrev pub ◌then_check◌ : Answer → Answer → Answer
◌then_check◌ a b at = first_error (a at) (b at)

abbrev pub unless_rejected : Option String → Answer → Answer
unless_rejected none next = next
unless_rejected (some hint) next = reject hint

abbrev pub either_check : Verdict → Verdict → Verdict
either_check none later = none
either_check (some e) later = later

abbrev pub opposite : Verdict → Answer
opposite none = reject "not validator failed"
opposite (some e) = accept

abbrev pub at_segment : String → Answer → Answer
at_segment segment answer at = answer (below at segment)

unfoldable pub check_number : Range ℕ → Any → Answer
check_number r (number text) = hint_answer (range_hint float_lt float_le r (parse_float text).0)
check_number r (int n) = hint_answer (range_hint float_lt float_le r (float_of_int n))
check_number r (float64 f) = hint_answer (range_hint float_lt float_le r f)
check_number r _ = reject "data is not number"

abbrev pub check_int : Range ℤ → Option ℤ → Answer
check_int r (some n) = hint_answer (range_hint ltb_ℤ leb_ℤ r n)
check_int r none = reject "data is not integer"

unfoldable pub check_integer : Range ℤ → Any → Answer
check_integer r (number text) = check_int r (parse_int64 text)
check_integer r (int n) = check_int r (some n)
check_integer r _ = reject "data is not integer"

unfoldable pub check_string : Option ℤ → Option ℤ → Any → Answer
check_string longest shortest (str s) =
    if over longest (String.len s)
    then reject "len(str) > maxLength"
    else if short_of shortest (String.len s)
    then reject "len(str) < minLength"
    else accept
check_string longest shortest _ = reject "data is not string"

unfoldable pub check_items : (Any → Answer) → ℕ → List Any → Answer
check_items check i [] = accept
check_items check i (x ∷ xs) =
    at_segment (index i) (check x) then_check check_items check (suc i) xs

unfoldable pub check_others : (Any → Answer) → List (String × Schema) → List (String × Any) → Answer
check_others check checked [] = accept
check_others check checked ((k, v) ∷ obj) =
    let rest = check_others check checked obj in
    if is_some (lookup k checked) then rest else at_segment (dotted k) (check v) then_check rest

abbrev pub check_found : (Any → Answer) → String → Bool → Option Any → Answer
check_found check name required (some v) = at_segment (dotted name) (check v)
check_found check name true none = at_segment (dotted name) (reject "required prop is not present")
check_found check name false none = accept

unfoldable pub check_params : ℕ → ℕ → Answer → Answer → Answer
check_params have want first extra = at_segment ".params" (
    if ltb have want
    then reject "length of params mismatch"
    else first then_check (if ltb want have then extra else accept))

abbrev pub check_message :
    (List Any → Answer) → (Any → Answer) → Option (List Any) → Option Any → Answer
check_message check_given check_result (some params) result = check_given params
check_message check_given check_result none (some result) = check_result result
check_message check_given check_result none none = reject "data is not a JSONRPC message"

unfoldable mutual
  pub check : Schema → Any → Answer
  check (any_schema m) data' = accept
  check (null_schema m) nil = accept
  check (null_schema m) _ = reject "data is not null"
  check (bool_schema m) (bool b) = accept
  check (bool_schema m) _ = reject "data is not bool"
  check (number_schema m r) data' = check_number r data'
  check (integer_schema m r) data' = check_integer r data'
  check (string_schema m longest shortest) data' = check_string longest shortest data'
  check (any_of m choices) data' = check_any_of choices data'
  check (all_of m choices) data' = check_all_of choices data'
  check (not_schema m s) data' = λ at. opposite (check s data' at) at
  check (list_schema m s fewest most) (list xs) =
      unless_rejected (list_length fewest most (length (items xs)))
        (check_items (check s) 0 (items xs))
  check (list_schema m s fewest most) _ = reject "data is not a list"
  check (tuple_schema m children more) (list xs) =
      unless_rejected (tuple_length more (length (items xs)) (length (schemas children))) (
        check_children children 0 (items xs)
        then_check check_additional more (length (schemas children)) (items xs))
  check (tuple_schema m children more) _ = reject "data is not a list"
  check (method_schema m params returns more) (object obj) =
      check_message
        (λ given.
          check_params (length given) (length (schemas params)) (check_children params 0 given)
            (check_extra more (length (schemas params)) given))
        (check_result returns) (list_of (lookup "params" (fields obj)))
        (lookup "result" (fields obj))
  check (method_schema m params returns more) _ = reject "data is not object"
  check (object_schema m properties requires more) (object obj) =
      check_props properties requires (fields obj)
      then_check check_rest more (props properties) (fields obj)
  check (object_schema m properties requires more) _ = reject "data is not an object"

  pub check_any_of : Schemas → Any → Answer
  check_any_of no_more data' = reject "data is not any of the types"
  check_any_of (child s ss) data' = λ at. either_check (check s data' at) (check_any_of ss data' at)

  pub check_all_of : Schemas → Any → Answer
  check_all_of no_more data' = accept
  check_all_of (child s ss) data' = check s data' then_check check_all_of ss data'

  pub check_children : Schemas → ℕ → List Any → Answer
  check_children no_more i xs = accept
  check_children (child s ss) i [] = accept
  check_children (child s ss) i (x ∷ xs) =
      at_segment (index i) (check s x) then_check check_children ss (suc i) xs

  pub check_additional : Maybe → ℕ → List Any → Answer
  check_additional absent n xs = accept
  check_additional (present s) n xs = check_items (check s) n (drop n xs)

  pub check_extra : Maybe → ℕ → List Any → Answer
  check_extra absent n given = reject "length of params mismatch"
  check_extra (present s) n given = check_items (check s) n (drop n given)

  pub check_result : Maybe → Any → Answer
  check_result absent result = accept
  check_result (present s) result = at_segment ".result" (check s result)

  pub check_props : Props → List (String × Bool) → List (String × Any) → Answer
  check_props no_props requires obj = accept
  check_props (prop name s ps) requires obj =
      check_found (check s) name (is_some (lookup name requires)) (lookup name obj)
      then_check check_props ps requires obj

  pub check_rest : Maybe → List (String × Schema) → List (String × Any) → Answer
  check_rest absent checked obj = accept
  check_rest (present s) checked obj = check_others (check s) checked obj
