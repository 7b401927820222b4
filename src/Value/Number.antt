-- ===== src/Value/Number.antt =====
-- Numbers of the Go language and its standard library, as the source uses them: the order of
-- float64 values on their IEEE 754 bit patterns, the conversions of an integer and of a decimal
-- text to the nearest float64, and `json.Number`'s `Int64` and `Float64`. Texts that the JSON
-- grammar does not allow for a number (hexadecimal floats, "Inf", ".5") are outside the model.
pub mod Order
use jsoff.Base.{
  ℕ, zero, suc, ◌+◌, ◌-◌, ◌*◌, ◌/◌, ◌%◌, ◌^◌, ℤ, pos, negsuc, String, Bool, true, false, ◌&&◌, ◌||◌,
  not, List, [], ◌∷◌, Option, none, some, ltb, leb, nat_eq, ltb_ℤ, if◌then◌else◌, ◌≡◌, refl, codes,
}

-- The magnitude of a bit pattern without its sign, and the patterns above infinity.
abbrev magnitude : ℕ → ℕ
magnitude b = b % 2 ^ 63

abbrev infinity : ℕ
infinity = 2047 * 2 ^ 52

abbrev is_nan : ℕ → Bool
is_nan b = ltb infinity (magnitude b)

-- Between values that are no NaN the patterns are ordered as signed magnitudes; +0 and -0 agree.
abbrev signed : ℕ → ℤ
signed b =
    if ltb b (2 ^ 63)
    then pos b
    else if nat_eq (magnitude b) 0
    then pos 0
    else negsuc (magnitude b - 1)

unfoldable pub float_lt : ℕ → ℕ → Bool
float_lt a b = not (is_nan a) && not (is_nan b) && ltb_ℤ (signed a) (signed b)

unfoldable pub float_eq : ℕ → ℕ → Bool
float_eq a b =
    not (is_nan a)
    && not (is_nan b)
    && not (ltb_ℤ (signed a) (signed b))
    && not (ltb_ℤ (signed b) (signed a))

unfoldable pub float_le : ℕ → ℕ → Bool
unfolding float_lt float_eq
float_le a b = float_lt a b || float_eq a b

-- How often `x` is halved until it has 53 bits at most.
shifts : ℕ → ℕ → ℕ
shifts zero x = 0
shifts (suc fuel) x = let more = suc (shifts fuel (x / 2)) in if ltb x (2 ^ 53) then 0 else more

-- num / den, rounded half to even, as a pattern; past 2046 shifts the value is infinite.
abbrev round_at : ℕ → ℕ → ℕ → ℕ
round_at num den s =
    let q = num / (den * 2 ^ s) in
    let r = num % (den * 2 ^ s) in
    let up = ltb (den * 2 ^ s) (2 * r) || (nat_eq (2 * r) (den * 2 ^ s) && nat_eq (q % 2) 1) in
    let b = s * 2 ^ 52 + (if up then q + 1 else q) in if ltb b infinity then b else infinity

-- The denormal step is 2^-1074.
round_ratio : ℕ → ℕ → ℕ
unfolding shifts
round_ratio num den = round_at (num * 2 ^ 1074) den (shifts 2100 (num * 2 ^ 1074 / den))

abbrev with_sign : Bool → ℕ → ℕ
with_sign negative b = if negative then b + 2 ^ 63 else b

-- float64(n)
unfoldable pub float_of_int : ℤ → ℕ
unfolding round_ratio
float_of_int (pos n) = round_ratio n 1
float_of_int (negsuc n) = with_sign true (round_ratio (suc n) 1)

abbrev is_digit : ℕ → Bool
is_digit c = leb b'0' c && leb c b'9'

-- The digits at the front of a text: their value, how many they are, and the rest.
take_digits : ℕ → ℕ → List ℕ → ℕ × ℕ × List ℕ
take_digits value count [] = (value, count, [])
take_digits value count (c ∷ cs) =
    let more = take_digits (value * 10 + (c - b'0')) (count + 1) cs in
    if is_digit c then more else (value, count, c ∷ cs)

abbrev take_sign : List ℕ → Bool × List ℕ
take_sign [] = (false, [])
take_sign (c ∷ cs) =
    if nat_eq c b'-' then (true, cs) else if nat_eq c b'+' then (false, cs) else (false, c ∷ cs)

abbrev in_int64 : Bool → ℕ → Option ℤ
in_int64 true zero = some (pos 0)
in_int64 true (suc n) = if ltb n (2 ^ 63) then some (negsuc n) else none
in_int64 false n = if ltb n (2 ^ 63) then some (pos n) else none

abbrev whole : ℕ → List ℕ → Option ℤ → Option ℤ
whole zero _ r = none
whole (suc _) [] r = r
whole (suc _) (_ ∷ _) r = none

-- strconv.ParseInt(text, 10, 64), which is json.Number's Int64; `none` is its error.
unfoldable pub parse_int64 : String → Option ℤ
unfolding take_digits codes
parse_int64 text =
    let (negative, body) = take_sign (codes text) in
    let (value, count, rest) = take_digits 0 0 body in whole count rest (in_int64 negative value)

-- A decimal text: its sign, its digits, how many of them follow the point, and its exponent's
-- sign and digits.
record Decimal : Type 0 where
  negative : Bool
  mantissa : ℕ
  places : ℕ
  exponent_negative : Bool
  exponent : ℕ

abbrev whole_exponent : ℕ → List ℕ → Decimal → Option Decimal
whole_exponent zero _ d = none
whole_exponent (suc _) [] d = some d
whole_exponent (suc _) (_ ∷ _) d = none

-- What follows the digits: nothing, or `e`, a sign and digits.
abbrev with_exponent : Bool → ℕ → ℕ → List ℕ → Option Decimal
unfolding take_digits
with_exponent negative mantissa places [] = some (record {
  negative = negative;
  mantissa = mantissa;
  places = places;
  exponent_negative = false;
  exponent = 0;
})
with_exponent negative mantissa places (c ∷ cs) =
    let (down, body) = take_sign cs in
    let (value, count, rest) = take_digits 0 0 body in
    if nat_eq c b'e' || nat_eq c b'E'
    then whole_exponent count rest (record {
      negative = negative;
      mantissa = mantissa;
      places = places;
      exponent_negative = down;
      exponent = value;
    })
    else none

abbrev with_fraction : Bool → ℕ → List ℕ → Option Decimal
unfolding take_digits with_exponent
with_fraction negative mantissa [] = with_exponent negative mantissa 0 []
with_fraction negative mantissa (c ∷ cs) =
    let (value, count, rest) = take_digits mantissa 0 cs in
    if nat_eq c b'.'
    then (if nat_eq count 0 then none else with_exponent negative value count rest)
    else with_exponent negative mantissa 0 (c ∷ cs)

parse_decimal : String → Option Decimal
unfolding take_digits with_fraction codes
parse_decimal text =
    let (negative, body) = take_sign (codes text) in
    let (value, count, rest) = take_digits 0 0 body in
    if nat_eq count 0 then none else with_fraction negative value rest

nearest : Decimal → ℕ
unfolding round_ratio
nearest d =
    if d.exponent_negative
    then round_ratio d.mantissa (10 ^ (d.places + d.exponent))
    else round_ratio (d.mantissa * 10 ^ d.exponent) (10 ^ d.places)

-- strconv.ParseFloat(text, 64), which is json.Number's Float64: the value, and whether there is no
-- error. A syntax error comes with 0, a value out of range with an infinity.
unfoldable pub parse_float : String → ℕ × Bool
unfolding parse_decimal nearest
parse_float text = elim (parse_decimal text) [
  | none ↦ (0, false)
  | some d ↦ (with_sign d.negative (nearest d), ltb (nearest d) infinity)
]

-- 1.5 is 0x3ff8000000000000, 0.1 is 0x3fb999999999999a, and 1e999 is out of range.
parse_float_tests :
    (parse_float "1.5" ≡ (0x3ff8000000000000, true))
    × (parse_float "0.1" ≡ (0x3fb999999999999a, true))
    × (parse_float "-25e-1" ≡ (0xc004000000000000, true))
    × (parse_float "5e-324" ≡ (1, true))
    × (parse_float "1e999" ≡ (0x7ff0000000000000, false))
    × (parse_float "1x" ≡ (0, false))
unfolding parse_float
parse_float_tests = (refl, refl, refl, refl, refl, refl)

parse_int64_tests :
    (parse_int64 "-9223372036854775808" ≡ some (negsuc 9223372036854775807))
    × (parse_int64 "9223372036854775808" ≡ none)
    × (parse_int64 "1.0" ≡ none)
    × (float_of_int (negsuc 2) ≡ 0xc008000000000000)
unfolding parse_int64 float_of_int
parse_int64_tests = (refl, refl, refl, refl)
