-- ===== src/Schema/Check/Prefix/Parts.antt =====
-- The parts of a check answer alike at every path.
use mathlib.Core.List.{append_assoc}
use jsoff.Base.{
  ℕ, suc, ℤ, String, Bool, true, false, Option, none, some, List, [], ◌∷◌, ◌++◌, ◌≡◌, refl, arith,
  lookup, is_some, ltb, if◌then◌else◌,
}
use jsoff.Value.{Any, int, float64, number, str}
use jsoff.Value.Number.{parse_int64}
use jsoff.Schema.{Range, Schema}
use jsoff.Schema.Validator.{Verdict}
use jsoff.Schema.Validator.Laws.{below}
use jsoff.Schema.Scan.{index, dotted}
use jsoff.Schema.Check.{
  Answer, accept, reject, hint_answer, ◌then_check◌, unless_rejected, at_segment, check_number,
  check_int, check_integer, check_string, check_items, check_others, check_found, check_params,
  check_message, opposite, either_check,
}

abbrev pub relocate : List String → Verdict → Verdict
relocate base none = none
relocate base (some e) = some (record e { paths = base ++ e.paths })

abbrev pub IsUniform : Answer → Type 0
IsUniform a = (base at : List String) → a (base ++ at) ≡ relocate base (a at)

pub accept-IsUniform : IsUniform accept
accept-IsUniform base at = refl

pub reject-IsUniform : (hint : String) → IsUniform (reject hint)
reject-IsUniform hint base at = refl

pub then_check-IsUniform : (a b : Answer) → IsUniform a → IsUniform b → IsUniform (a then_check b)
then_check-IsUniform a b ha hb base at = ground (arith, ha base at, hb base at)

pub either_check-IsUniform :
    (a b : Answer) → IsUniform a → IsUniform b → IsUniform (λ at. either_check (a at) (b at))
either_check-IsUniform a b ha hb base at = ground (arith, ha base at, hb base at)

pub opposite-IsUniform : (a : Answer) → IsUniform a → IsUniform (λ at. opposite (a at) at)
opposite-IsUniform a ha base at = ground (arith, ha base at)

pub hint_answer-IsUniform : (h : Option String) → IsUniform (hint_answer h)
hint_answer-IsUniform none base at = refl
hint_answer-IsUniform (some hint) base at = refl

pub unless_rejected-IsUniform :
    (h : Option String) (a : Answer) → IsUniform a → IsUniform (unless_rejected h a)
unless_rejected-IsUniform none a ha base at = ha base at
unless_rejected-IsUniform (some hint) a ha base at = refl

pub if-IsUniform :
    (b : Bool) (x y : Answer) → IsUniform x → IsUniform y → IsUniform (if b then x else y)
if-IsUniform true x y hx hy base at = hx base at
if-IsUniform false x y hx hy base at = hy base at

pub below-append :
    (base at : List String) (segment : String)
    → below (base ++ at) segment ≡ base ++ below at segment
below-append base at segment = ground (arith, append_assoc base at (segment ∷ []))

pub at_segment-IsUniform :
    (segment : String) (a : Answer) → IsUniform a → IsUniform (at_segment segment a)
at_segment-IsUniform segment a ha base at = rw below-append (ha base (below at segment))

pub check_number-IsUniform : (r : Range ℕ) (d : Any) → IsUniform (check_number r d)
unfolding check_number
check_number-IsUniform r (number text) base at = hint_answer-IsUniform _ base at
check_number-IsUniform r (int n) base at = hint_answer-IsUniform _ base at
check_number-IsUniform r (float64 f) base at = hint_answer-IsUniform _ base at
check_number-IsUniform r _ base at = refl

pub check_int-IsUniform : (r : Range ℤ) (o : Option ℤ) → IsUniform (check_int r o)
check_int-IsUniform r none base at = refl
check_int-IsUniform r (some n) base at = hint_answer-IsUniform _ base at

pub check_integer-IsUniform : (r : Range ℤ) (d : Any) → IsUniform (check_integer r d)
unfolding check_integer
check_integer-IsUniform r (number text) base at = check_int-IsUniform r (parse_int64 text) base at
check_integer-IsUniform r (int n) base at = hint_answer-IsUniform _ base at
check_integer-IsUniform r _ base at = refl

pub check_string-IsUniform :
    (longest shortest : Option ℤ) (d : Any) → IsUniform (check_string longest shortest d)
unfolding check_string
check_string-IsUniform longest shortest (str s) base at = ground arith
check_string-IsUniform longest shortest _ base at = refl

module _ (check : Any → Answer) (h : (x : Any) → IsUniform (check x)) where
  pub check_items-IsUniform : (i : ℕ) (xs : List Any) → IsUniform (check_items check i xs)
  unfolding check_items
  check_items-IsUniform i [] base at = refl
  check_items-IsUniform i (x ∷ xs) base at =
      then_check-IsUniform _ _ (at_segment-IsUniform (index i) (check x) (h x))
        (check_items-IsUniform (suc i) xs) base at

  pub check_others-IsUniform :
      (checked : List (String × Schema)) (obj : List (String × Any))
      → IsUniform (check_others check checked obj)
  unfolding check_others
  check_others-IsUniform checked [] base at = refl
  check_others-IsUniform checked ((k, v) ∷ obj) base at =
      if-IsUniform (is_some (lookup k checked)) _ _ (check_others-IsUniform checked obj)
        (then_check-IsUniform _ _ (at_segment-IsUniform (dotted k) (check v) (h v))
          (check_others-IsUniform checked obj))
        base at

  pub check_found-IsUniform :
      (name : String) (required : Bool) (o : Option Any)
      → IsUniform (check_found check name required o)
  check_found-IsUniform name required (some x) base at =
      at_segment-IsUniform (dotted name) (check x) (h x) base at
  check_found-IsUniform name true none base at =
      at_segment-IsUniform (dotted name) (reject "required prop is not present")
        (reject-IsUniform _) base at
  check_found-IsUniform name false none base at = refl

pub check_params-IsUniform :
    (have want : ℕ) (first extra : Answer)
    → IsUniform first
    → IsUniform extra
    → IsUniform (check_params have want first extra)
unfolding check_params
check_params-IsUniform have want first extra hf he = at_segment-IsUniform ".params" _ (
    if-IsUniform (ltb have want) _ _ (reject-IsUniform _)
      (then_check-IsUniform _ _ hf (if-IsUniform (ltb want have) _ _ he accept-IsUniform)))

pub check_message-IsUniform :
    (check_given : List Any → Answer) (check_result : Any → Answer)
    → ((xs : List Any) → IsUniform (check_given xs))
    → ((x : Any) → IsUniform (check_result x))
    → (params : Option (List Any)) (result : Option Any)
    → IsUniform (check_message check_given check_result params result)
check_message-IsUniform cg cr hg hr (some xs) result base at = hg xs base at
check_message-IsUniform cg cr hg hr none (some x) base at = hr x base at
check_message-IsUniform cg cr hg hr none none base at = refl
