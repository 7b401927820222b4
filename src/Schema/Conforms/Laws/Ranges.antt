-- ===== src/Schema/Conforms/Laws/Ranges.antt =====
-- When the lengths and the values of numbers are in range.
use jsoff.Base.{
  ℕ, ℤ, ltb_ℤ, leb_ℤ, ◌≤ℤ◌, ◌<ℤ◌, String, Bool, true, false, Option, none, some, List, ◌≡◌, refl,
  ◌↔◌, ◌⊎◌, arith,
}
use jsoff.Value.Number.{float_lt, float_le}
use jsoff.Schema.{Range, Maybe, absent, present}
use jsoff.Schema.Scan.{flag, first_hint, above, under, range_hint, list_length, tuple_length}
use jsoff.Schema.Check.{
  Answer, accept, reject, hint_answer, ◌then_check◌, unless_rejected, opposite, either_check,
}
use jsoff.Schema.Conforms.{Given, IntInRange, FloatInRange, LengthIn, TupleLength}

-- At every path, the answer is an acceptance exactly if P holds.
abbrev pub Accepts : Answer → Type 0 → Type 0
Accepts answer P = (at : List String) → (answer at ≡ none) ↔ P

pub accept-Accepts : Accepts accept Unit
accept-Accepts at = (λ _. tt, λ _. refl)

pub reject-Accepts : (hint : String) → Accepts (reject hint) ⊥
reject-Accepts hint at = (λ e. cc, λ f. absurd f)

module _ (a b : Answer) {P Q : Type 0} (ha : Accepts a P) (hb : Accepts b Q) where
  pub then_check-Accepts : Accepts (a then_check b) (P × Q)
  then_check-Accepts at = grind (arith, ha at, hb at)

  pub either_check-Accepts : Accepts (λ at. either_check (a at) (b at)) (P ⊎ Q)
  either_check-Accepts at = grind (arith, ha at, hb at)

pub opposite-Accepts :
    (a : Answer) {P : Type 0} → Accepts a P → Accepts (λ at. opposite (a at) at) (¬ P)
opposite-Accepts a ha at = grind (arith, ha at)

pub hint_answer-Accepts : (h : Option String) → Accepts (hint_answer h) (h ≡ none)
hint_answer-Accepts none at = (λ _. refl, λ _. refl)
hint_answer-Accepts (some hint) at = (λ e. cc, λ e. cc)

pub unless_rejected-Accepts :
    (h : Option String) (a : Answer) {P Q : Type 0}
    → (h ≡ none) ↔ P
    → Accepts a Q
    → Accepts (unless_rejected h a) (P × Q)
unless_rejected-Accepts none a hp ha at = grind (arith, ha at)
unless_rejected-Accepts (some hint) a hp ha at = grind arith

pub first_hint_iff :
    (h k : Option String) {P Q : Type 0}
    → (h ≡ none) ↔ P
    → (k ≡ none) ↔ Q
    → (first_hint h k ≡ none) ↔ (P × Q)
first_hint_iff none k p q = grind arith
first_hint_iff (some h) k p q = grind arith

pub above_int :
    (most : Option ℤ) (ex : Option Bool) (n : ℤ)
    → (above ltb_ℤ leb_ℤ most (flag ex) n ≡ none)
      ↔ Given (λ m. (n ≤ℤ m) × (ex ≡ some true → n <ℤ m)) most
above_int none ex n = ground arith
above_int (some m) none n = grind arith
above_int (some m) (some true) n = grind arith
above_int (some m) (some false) n = grind arith

pub under_int :
    (least : Option ℤ) (ex : Option Bool) (n : ℤ)
    → (under ltb_ℤ leb_ℤ least (flag ex) n ≡ none)
      ↔ Given (λ m. (m ≤ℤ n) × (ex ≡ some true → m <ℤ n)) least
under_int none ex n = ground arith
under_int (some m) none n = grind arith
under_int (some m) (some true) n = grind arith
under_int (some m) (some false) n = grind arith

pub int_range : (r : Range ℤ) (n : ℤ) → (range_hint ltb_ℤ leb_ℤ r n ≡ none) ↔ IntInRange r n
unfolding range_hint
int_range r n =
    first_hint_iff _ _ (above_int r.maximum r.exclusive_maximum n)
      (under_int r.minimum r.exclusive_minimum n)

pub above_float :
    (most : Option ℕ) (ex : Option Bool) (f : ℕ)
    → (above float_lt float_le most (flag ex) f ≡ none)
      ↔ Given
          (λ m.
            (ex ≡ some true → float_le m f ≡ false) × ((ex ≡ some true → ⊥) → float_lt m f ≡ false))
          most
above_float none ex f = ground arith
above_float (some m) none f = grind arith
above_float (some m) (some true) f = grind arith
above_float (some m) (some false) f = grind arith

pub under_float :
    (least : Option ℕ) (ex : Option Bool) (f : ℕ)
    → (under float_lt float_le least (flag ex) f ≡ none)
      ↔ Given
          (λ m.
            (ex ≡ some true → float_le f m ≡ false) × ((ex ≡ some true → ⊥) → float_lt f m ≡ false))
          least
under_float none ex f = ground arith
under_float (some m) none f = grind arith
under_float (some m) (some true) f = grind arith
under_float (some m) (some false) f = grind arith

pub float_range :
    (r : Range ℕ) (f : ℕ) → (range_hint float_lt float_le r f ≡ none) ↔ FloatInRange r f
unfolding range_hint
float_range r f =
    first_hint_iff _ _ (above_float r.maximum r.exclusive_maximum f)
      (under_float r.minimum r.exclusive_minimum f)

pub list_length_iff :
    (fewest most : Option ℤ) (n : ℕ) → (list_length fewest most n ≡ none) ↔ LengthIn fewest most n
list_length_iff fewest most n = grind arith

pub tuple_length_iff :
    (more : Maybe) (have want : ℕ)
    → (tuple_length more have want ≡ none) ↔ TupleLength more have want
tuple_length_iff absent have want = ground arith
tuple_length_iff (present s) have want = ground arith
