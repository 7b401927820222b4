-- ===== src/Schema/Check/Refines/Parts.antt =====
-- The parts of a scan read the stack and give it back.
use jsoff.Base.{
  ℕ, suc, ℤ, String, Bool, true, false, Option, none, some, List, [], ◌∷◌, ◌≡◌, refl, arith, ◌≤◌,
  lookup, is_some, length, ltb, ltb-false, if◌then◌else◌, Bool-cases, inl, inr,
}
use jsoff.Value.{Any, nil, int, float64, number, str}
use jsoff.Value.Number.{parse_int64}
use jsoff.Schema.{Range, Schema, Schemas, schemas, Maybe, absent, present}
use jsoff.Schema.Validator.{Run, Verdict, pure, ◌>>=◌, new_error_pos, validator_scan, or_next}
use jsoff.Schema.Validator.Laws.{Reads, validator_scan-Reads}
use jsoff.Schema.Scan.{
  index, dotted, tuple_length, check_range_float, check_range_int, checked_int, hinted, scan_number,
  scan_integer, scan_string, scan_items, scan_others, scan_missing, scan_found, scan_params,
  scan_message, scan_children, scan_extra, or_hint, inverted, or_else,
}
use jsoff.Schema.Check.{
  Answer, accept, reject, hint_answer, ◌then_check◌, unless_rejected, check_number, check_int,
  check_integer, check_string, check_items, check_others, check_found, check_params, check_children,
  check_extra, first_error, check_message, opposite, either_check,
}

pub new_error_pos-Reads : (hint : String) → Reads (new_error_pos hint) (reject hint)
unfolding new_error_pos
new_error_pos-Reads hint v = refl

pub hinted-Reads : (h : Option String) → Reads (hinted h) (hint_answer h)
hinted-Reads none v = refl
hinted-Reads (some hint) v = new_error_pos-Reads hint v

pub or_next-Reads :
    (verdict : Verdict) (next : Run Verdict) (later : Answer)
    → Reads next later
    → Reads (or_next verdict next) (λ at. first_error verdict (later at))
or_next-Reads none next later h v = h v
or_next-Reads (some e) next later h v = refl

-- A loop body that goes on when the first part found no error.
pub then_check-Reads :
    (m next : Run Verdict) (a later : Answer)
    → Reads m a
    → Reads next later
    → Reads (m >>= λ verdict. or_next verdict next) (a then_check later)
then_check-Reads m next a later hm hn v =
    rw (hm v, ◌>>=◌) (or_next-Reads (a v.paths) next later hn v)

pub or_hint-Reads :
    (h : Option String) (next : Run Verdict) (later : Answer)
    → Reads next later
    → Reads (or_hint h next) (unless_rejected h later)
or_hint-Reads none next later r = r
or_hint-Reads (some hint) next later r = new_error_pos-Reads hint

pub scan_number-Reads :
    (r : Range ℕ) (data' : Any) → Reads (scan_number r data') (check_number r data')
unfolding scan_number check_number check_range_float
scan_number-Reads r (number text) = hinted-Reads _
scan_number-Reads r (int n) = hinted-Reads _
scan_number-Reads r (float64 f) = hinted-Reads _
scan_number-Reads r _ = new_error_pos-Reads _

pub checked_int-Reads : (r : Range ℤ) (o : Option ℤ) → Reads (checked_int r o) (check_int r o)
unfolding check_range_int
checked_int-Reads r (some n) = hinted-Reads _
checked_int-Reads r none = new_error_pos-Reads _

pub scan_integer-Reads :
    (r : Range ℤ) (data' : Any) → Reads (scan_integer r data') (check_integer r data')
unfolding scan_integer check_integer check_range_int
scan_integer-Reads r (number text) = checked_int-Reads r (parse_int64 text)
scan_integer-Reads r (int n) = hinted-Reads _
scan_integer-Reads r _ = new_error_pos-Reads _

pub scan_string-Reads :
    (longest shortest : Option ℤ) (data' : Any)
    → Reads (scan_string longest shortest data') (check_string longest shortest data')
unfolding scan_string check_string new_error_pos
scan_string-Reads longest shortest (str s) v = ground arith
scan_string-Reads longest shortest _ v = refl

module _ (scan : Any → Run Verdict) (check : Any → Answer)
    (h : (x : Any) → Reads (scan x) (check x)) where
  pub scan_items-Reads :
      (i : ℕ) (xs : List Any) → Reads (scan_items scan i xs) (check_items check i xs)
  unfolding scan_items check_items
  scan_items-Reads i [] v = refl
  scan_items-Reads i (x ∷ xs) v =
      then_check-Reads _ _ _ _ (validator_scan-Reads scan (index i) x (check x) (h x))
        (scan_items-Reads (suc i) xs) v

  pub scan_others-Reads :
      (checked : List (String × Schema)) (obj : List (String × Any))
      → Reads (scan_others scan checked obj) (check_others check checked obj)
  unfolding scan_others check_others
  scan_others-Reads checked [] w = refl
  scan_others-Reads checked ((k, v) ∷ obj) w = elim (Bool-cases (is_some (lookup k checked))) [
    | inl e ↦ rw e (scan_others-Reads checked obj w)
    | inr e ↦ rw e (
        then_check-Reads _ _ _ _ (validator_scan-Reads scan (dotted k) v (check v) (h v))
          (scan_others-Reads checked obj) w)
  ]

  pub scan_found-Reads :
      (name : String) (required : Bool) (o : Option Any)
      → Reads (scan_found scan name required o) (check_found check name required o)
  unfolding scan_missing validator_scan
  scan_found-Reads name required (some x) v =
      validator_scan-Reads scan (dotted name) x (check x) (h x) v
  scan_found-Reads name true none v =
      validator_scan-Reads (λ _. new_error_pos "required prop is not present") (dotted name) nil
        (reject "required prop is not present") (new_error_pos-Reads _) v
  scan_found-Reads name false none v = refl

-- The length test of ScanParams guards its loop, which may thus be asked about that case only.
pub scan_params-Reads :
    (have want : ℕ) (first extra : Run Verdict) (first_check extra_check : Answer)
    → (want ≤ have → Reads first first_check)
    → Reads extra extra_check
    → Reads (scan_params have want first extra) (check_params have want first_check extra_check)
unfolding scan_params check_params validator_scan
scan_params-Reads have want first extra first_check extra_check hf he =
    validator_scan-Reads (λ _. body) ".params" nil checked inner
  where
    body : Run Verdict
    body =
        if ltb have want
        then new_error_pos "length of params mismatch"
        else (first >>= λ early. or_next early (if ltb want have then extra else pure none))

    checked : Answer
    checked =
        if ltb have want
        then reject "length of params mismatch"
        else first_check then_check (if ltb want have then extra_check else accept)

    more : (b : Bool) → Reads (if b then extra else pure none) (if b then extra_check else accept)
    more true v = he v
    more false v = refl

    inner : Reads body checked
    inner v = elim (Bool-cases (ltb have want)) [
      | inl e ↦ rw e (new_error_pos-Reads _ v)
      | inr e ↦
          rw e (then_check-Reads _ _ _ _ (hf (ltb-false have want e)) (more (ltb want have)) v)
    ]

abbrev pub scan_given : Schemas → Maybe → List Any → Run Verdict
scan_given params more given =
    scan_params (length given) (length (schemas params)) (scan_children params 0 given)
      (scan_extra more (length (schemas params)) given)

abbrev pub check_given : Schemas → Maybe → List Any → Answer
check_given params more given =
    check_params (length given) (length (schemas params)) (check_children params 0 given)
      (check_extra more (length (schemas params)) given)

pub scan_message-Reads :
    (scan_g : List Any → Run Verdict) (scan_r : Any → Run Verdict) (check_g : List Any → Answer)
    (check_r : Any → Answer)
    → ((xs : List Any) → Reads (scan_g xs) (check_g xs))
    → ((x : Any) → Reads (scan_r x) (check_r x))
    → (params : Option (List Any)) (result : Option Any)
    → Reads (scan_message scan_g scan_r params result) (check_message check_g check_r params result)
scan_message-Reads sg sr cg cr hg hr (some xs) result v = hg xs v
scan_message-Reads sg sr cg cr hg hr none (some x) v = hr x v
scan_message-Reads sg sr cg cr hg hr none none v = new_error_pos-Reads _ v

pub inverted-Reads : (verdict : Verdict) → Reads (inverted verdict) (opposite verdict)
inverted-Reads none v = new_error_pos-Reads _ v
inverted-Reads (some e) v = refl

pub or_else-Reads :
    (verdict : Verdict) (next : Run Verdict) (later : Answer)
    → Reads next later
    → Reads (or_else verdict next) (λ at. either_check verdict (later at))
or_else-Reads none next later h v = refl
or_else-Reads (some e) next later h v = h v

-- A tuple that passes the length test has an item for each child.
pub tuple_length-le :
    (more : Maybe) (have want : ℕ) → tuple_length more have want ≡ none → want ≤ have
tuple_length-le absent have want e = ground arith
tuple_length-le (present s) have want e = ground arith

pub tuple-Reads :
    (h : Option String) (next : Run Verdict) (later : Answer)
    → (h ≡ none → Reads next later)
    → Reads (or_hint h next) (unless_rejected h later)
tuple-Reads none next later r v = r refl v
tuple-Reads (some hint) next later r v = new_error_pos-Reads hint v
