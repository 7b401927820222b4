-- ===== src/Schema/Conforms/Laws/Parts.antt =====
-- Acceptance of the answers that a check is made of, part by part.
use Prim.Native.String
use jsoff.Base.{
  ℕ, zero, suc, ℤ, String, Bool, true, false, Option, none, some, List, [], ◌∷◌, ◌≡◌, refl, ◌↔◌,
  inl, inr, ◌≤◌, lookup, is_some, length, drop, All, arith, ltb, ltb-true, ltb-false, if◌then◌else◌,
  Bool-cases,
}
use jsoff.Value.{Any, int, float64, number, str}
use jsoff.Value.Number.{parse_int64}
use jsoff.Schema.{Range, Schema, Maybe, absent, present}
use jsoff.Schema.Scan.{index, dotted}
use jsoff.Schema.Check.{
  Answer, accept, hint_answer, ◌then_check◌, at_segment, check_number, check_int, check_integer,
  check_string, check_items, check_others, check_found, check_params, check_message,
}
use jsoff.Schema.Conforms.{
  IntInRange, FloatInRange, float_value, int_value, Has, LengthIn, Entry, MessageBody, Conforms,
  ConformsExtra,
}
use jsoff.Schema.Conforms.Laws.Ranges.{
  Accepts, accept-Accepts, reject-Accepts, then_check-Accepts, int_range, float_range,
}

-- A hint stands for an answer.
pub hint-Accepts : (h : Option String) {P : Type 0} → (h ≡ none) ↔ P → Accepts (hint_answer h) P
hint-Accepts none p at = grind arith
hint-Accepts (some hint) p at = grind arith

pub check_number-Accepts :
    (r : Range ℕ) (d : Any) → Accepts (check_number r d) (Has (FloatInRange r) (float_value d))
unfolding check_number
check_number-Accepts r (number text) at = hint-Accepts _ (float_range r _) at
check_number-Accepts r (int n) at = hint-Accepts _ (float_range r _) at
check_number-Accepts r (float64 f) at = hint-Accepts _ (float_range r f) at
check_number-Accepts r _ at = reject-Accepts _ at

pub check_int-Accepts :
    (r : Range ℤ) (o : Option ℤ) → Accepts (check_int r o) (Has (IntInRange r) o)
check_int-Accepts r (some n) at = hint-Accepts _ (int_range r n) at
check_int-Accepts r none at = reject-Accepts _ at

pub check_integer-Accepts :
    (r : Range ℤ) (d : Any) → Accepts (check_integer r d) (Has (IntInRange r) (int_value d))
unfolding check_integer
check_integer-Accepts r (number text) at = check_int-Accepts r (parse_int64 text) at
check_integer-Accepts r (int n) at = check_int-Accepts r (some n) at
check_integer-Accepts r _ at = reject-Accepts _ at

pub check_string-Accepts :
    (longest shortest : Option ℤ) (s : String)
    → Accepts (check_string longest shortest (str s)) (LengthIn shortest longest (String.len s))
unfolding check_string
check_string-Accepts longest shortest s at = grind arith

pub unchecked-Accepts :
    (o : Option Schema) (a rest : Answer) {P Q : Type 0}
    → Accepts a P
    → Accepts rest Q
    → Accepts (if is_some o then rest else a then_check rest) ((o ≡ none → P) × Q)
unchecked-Accepts none a rest ha hr at = grind (arith, ha at, hr at)
unchecked-Accepts (some s) a rest ha hr at = grind (arith, hr at)

module _ (check : Any → Answer) {P : Any → Type 0} (h : (x : Any) → Accepts (check x) (P x)) where
  pub check_items-Accepts : (i : ℕ) (xs : List Any) → Accepts (check_items check i xs) (All P xs)
  unfolding check_items
  check_items-Accepts i [] at = accept-Accepts at
  check_items-Accepts i (x ∷ xs) at =
      then_check-Accepts (at_segment (index i) (check x)) _ (λ at'. h x _)
        (check_items-Accepts (suc i) xs) at

  pub check_others-Accepts :
      (checked : List (String × Schema)) (obj : List (String × Any))
      → Accepts
          (check_others check checked obj)
          (All (λ (e : String × Any). lookup e.0 checked ≡ none → P e.1) obj)
  unfolding check_others
  check_others-Accepts checked [] at = accept-Accepts at
  check_others-Accepts checked ((k, v) ∷ obj) at =
      unchecked-Accepts (lookup k checked) (at_segment (dotted k) (check v)) _ (λ at'. h v _)
        (check_others-Accepts checked obj) at

  pub check_found-Accepts :
      (name : String) (r : Option Bool) (o : Option Any)
      → Accepts (check_found check name (is_some r) o) (Entry P (r ≡ none) o)
  check_found-Accepts name r (some x) at = h x _
  check_found-Accepts name none none at = (λ _. refl, λ _. refl)
  check_found-Accepts name (some b) none at = (λ e. cc, λ e. cc)

pub if_extra-Accepts :
    (b : Bool) (extra : Answer) {Q : Type 0}
    → Accepts extra Q
    → Accepts (if b then extra else accept) (b ≡ true → Q)
if_extra-Accepts true extra he at = grind (arith, he at)
if_extra-Accepts false extra he at = (λ _ e. cc, λ _. refl)

pub check_params-Accepts :
    (have want : ℕ) (first extra : Answer) {P Q R : Type 0}
    → (want ≤ have → Accepts first P)
    → Accepts extra Q
    → (want ≤ have → (ltb want have ≡ true → Q) ↔ R)
    → Accepts (check_params have want first extra) ((want ≤ have) × P × R)
unfolding check_params
check_params-Accepts have want first extra hf he hr at = elim (Bool-cases (ltb have want)) [
  | inl e ↦ rw e (λ h. cc, λ h. let few = ltb-true have want e in absurd (omega arith))
  | inr e ↦
      let enough = ltb-false have want e in
      let both =
        then_check-Accepts first (if ltb want have then extra else accept) (hf enough)
          (if_extra-Accepts (ltb want have) extra he) _ in
      rw e (
        λ h. (enough, (both.0 h).0, (hr enough).0 (both.0 h).1),
        λ (_, p, r). both.1 (p, (hr enough).1 r),
      )
]

-- Nothing is left exactly if there are no more items than schemas.
pub drop-eq-nil :
    (n : ℕ) (xs : List Any) → n ≤ length xs → ((ltb n (length xs) ≡ true → ⊥) ↔ (drop n xs ≡ []))
drop-eq-nil zero [] h = (λ _. refl, λ _ e. cc)
drop-eq-nil zero (x ∷ xs) h = (λ f. absurd (f (ground arith)), λ e _. cc)
drop-eq-nil (suc n) [] h = absurd (omega arith)
drop-eq-nil (suc n) (x ∷ xs) h = grind (arith, drop-eq-nil n xs (omega arith))

-- What the params after those of the schemas must be, if there are any.
abbrev pub Extra : Maybe → List Any → Type 0
Extra absent rest = ⊥
Extra (present s) rest = All (Conforms s) rest

pub Extra-iff :
    (more : Maybe) (n : ℕ) (given : List Any)
    → n ≤ length given
    → (ltb n (length given) ≡ true → Extra more (drop n given)) ↔ ConformsExtra more (drop n given)
Extra-iff absent n given h = drop-eq-nil n given h
Extra-iff (present s) n given h = (
  λ f. elim (Bool-cases (ltb n (length given))) [
    | inl e ↦ f e
    | inr e ↦ let nothing = (drop-eq-nil n given h).0 (λ e'. cc) in rw nothing tt
  ],
  λ a _. a,
)

pub flat-Accepts : (a : Answer) {P Q R : Type 0} → Accepts a (P × (Q × R)) → Accepts a (P × Q × R)
flat-Accepts a h at =
    (λ e. let (p, q) = (h at).0 e in (p, q.0, q.1), λ (p, q, r). (h at).1 (p, (q, r)))

pub message-Accepts :
    (check_given : List Any → Answer) (check_result : Any → Answer) {P : List Any → Type 0}
    {Q : Any → Type 0}
    → ((xs : List Any) → Accepts (check_given xs) (P xs))
    → ((x : Any) → Accepts (check_result x) (Q x))
    → (params : Option (List Any)) (result : Option Any)
    → Accepts (check_message check_given check_result params result) (MessageBody P Q params result)
message-Accepts cg cr hp hq (some xs) result at = hp xs at
message-Accepts cg cr hp hq none (some x) at = hq x at
message-Accepts cg cr hp hq none none at = reject-Accepts _ at
