-- ===== src/Value/Read/Samples.antt =====
-- The decimal literals of integers, as encoding/json prints them, for the tests.
use Prim.Native.String
use jsoff.Base.{
  ℕ, zero, suc, ℤ, pos, negsuc, ◌/◌, ◌%◌, ltb, String, if◌then◌else◌, ◌≡◌, refl, some, true,
}
use jsoff.Value.{nil}
use jsoff.Value.Number.{parse_int64}
use jsoff.Value.Read.{Literals, is_document}

unfoldable pub char_at : ℕ → String → String
char_at n String.[] = ""
char_at zero (String.◌∷◌ c s) = String.◌∷◌ c ""
char_at (suc n) (String.◌∷◌ c s) = char_at n s

unfoldable pub digits : (fuel : ℕ) → ℕ → String
unfolding char_at
digits zero n = char_at n "0123456789"
digits (suc fuel) n =
    let rest = digits fuel (n / 10) in
    if ltb n 10 then char_at n "0123456789" else String.◌++◌ rest (char_at (n % 10) "0123456789")

-- Twenty digits are enough for 64 bits.
unfoldable pub decimal : ℤ → String
unfolding digits
decimal (pos n) = digits 20 n
decimal (negsuc n) = String.◌++◌ "-" (digits 20 (suc n))

pub null_is_document : is_document nil ≡ true
unfolding is_document
null_is_document = refl

-- The only float is 0.5, and a value of another type is printed as null.
abbrev pub literals : Literals
literals = record {
  int_literal = decimal;
  float_literal = λ f. "0.5";
  other_document = λ n. nil;
  other-is_document = λ n. null_is_document;
}

decimal_tests :
    (decimal (pos 0) ≡ "0")
    × (decimal (negsuc 41) ≡ "-42")
    × (parse_int64 (decimal (pos 9223372036854775807)) ≡ some (pos 9223372036854775807))
unfolding parse_int64 decimal
decimal_tests = (refl, refl, refl)
