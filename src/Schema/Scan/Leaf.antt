-- ===== src/Schema/Scan/Leaf.antt =====
-- The `Scan` methods of schema/schema.go for the schemas that hold no others, and `checkRange`.
use Prim.Native.String
use jsoff.Base.{
  ℕ, ℤ, pos, String, Bool, false, not, ◌&&◌, Option, none, some, ltb_ℤ, leb_ℤ, itoa, if◌then◌else◌,
}
use jsoff.Value.{Any, int, float64, number, str}
use jsoff.Value.Number.{float_lt, float_le, float_of_int, parse_int64, parse_float}
use jsoff.Schema.{Range}
use jsoff.Schema.Validator.{Run, Verdict, pure, new_error_pos}

-- fmt.Sprintf("[%d]", i)
abbrev pub index : ℕ → String
index i = String.◌++◌ "[" (String.◌++◌ (itoa i) "]")

abbrev pub dotted : String → String
dotted name = String.◌++◌ "." name

-- A nil pointer to a bool counts as false.
abbrev pub flag : Option Bool → Bool
flag none = false
flag (some b) = b

abbrev pub first_hint : Option String → Option String → Option String
first_hint (some h) later = some h
first_hint none later = later

-- The body of both `checkRange` methods, over the order of the values: the hint of the error.
module _ {A : Type 0} (lt le : A → A → Bool) where
  abbrev pub above : Option A → Bool → A → Option String
  above none exmax v = none
  above (some most) exmax v =
      if exmax && le most v
      then some "value >= maximum"
      else if not exmax && lt most v
      then some "value > maximum"
      else none

  abbrev pub under : Option A → Bool → A → Option String
  under none exmin v = none
  under (some least) exmin v =
      if not exmin && lt v least
      then some "value < minimum"
      else if exmin && le v least
      then some "value <= minimum"
      else none

  unfoldable pub range_hint : Range A → A → Option String
  range_hint r v =
      first_hint (above r.maximum (flag r.exclusive_maximum) v)
        (under r.minimum (flag r.exclusive_minimum) v)

abbrev pub hinted : Option String → Run Verdict
hinted none = pure none
hinted (some hint) = new_error_pos hint

unfoldable pub check_range_float : Range ℕ → ℕ → Run Verdict
check_range_float r v = hinted (range_hint float_lt float_le r v)

unfoldable pub check_range_int : Range ℤ → ℤ → Run Verdict
check_range_int r v = hinted (range_hint ltb_ℤ leb_ℤ r v)

-- `NumberSchema.Scan`; the error of Float64 is ignored.
unfoldable pub scan_number : Range ℕ → Any → Run Verdict
scan_number r (number text) = check_range_float r (parse_float text).0
scan_number r (int n) = check_range_float r (float_of_int n)
scan_number r (float64 f) = check_range_float r f
scan_number r _ = new_error_pos "data is not number"

abbrev pub checked_int : Range ℤ → Option ℤ → Run Verdict
checked_int r (some n) = check_range_int r n
checked_int r none = new_error_pos "data is not integer"

-- `IntegerSchema.Scan`
unfoldable pub scan_integer : Range ℤ → Any → Run Verdict
scan_integer r (number text) = checked_int r (parse_int64 text)
scan_integer r (int n) = check_range_int r n
scan_integer r _ = new_error_pos "data is not integer"

abbrev pub over : Option ℤ → ℕ → Bool
over none n = false
over (some most) n = ltb_ℤ most (pos n)

abbrev pub short_of : Option ℤ → ℕ → Bool
short_of none n = false
short_of (some least) n = ltb_ℤ (pos n) least

-- `StringSchema.Scan`; `len` counts bytes.
unfoldable pub scan_string : Option ℤ → Option ℤ → Any → Run Verdict
scan_string max_length min_length (str s) =
    if over max_length (String.len s)
    then new_error_pos "len(str) > maxLength"
    else if short_of min_length (String.len s)
    then new_error_pos "len(str) < minLength"
    else pure none
scan_string max_length min_length _ = new_error_pos "data is not string"
