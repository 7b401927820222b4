-- ===== src/Utils.antt =====
-- utils.go: `GuessJson` and `GuessJsonArray`, which the command line tools read their arguments with. The text
-- of JSON, the parsing of floats (of which strconv also takes "inf", "nan" and hexadecimal ones) and the files
-- are parameters. What is decoded into a list, an object or a string is an error if it is another value.
pub mod Laws
pub mod Params
mod Tests
use Prim.Native.Char.{code}
use Prim.Native.String
use jsoff.Base.{
  ℕ, ℤ, String, ◌==◌, ◌||◌, nat_eq, Option, none, some, List, [], ◌∷◌, if◌then◌else◌, true, false,
}
use jsoff.Value.{Any, nil, bool, int, float64, str, list, object}
use jsoff.Value.Number.{parse_int64}
use jsoff.Result.{GoError, Result, ok, err, panic, foreign, ◌>>=◌}

-- The error of decoding a value into a variable of another type.
abbrev pub mismatch : {A : Type 0} → Result A
mismatch = err (foreign "json: cannot unmarshal")

-- What a text is taken for: an int64, which is a type of its own beside the `int` of the other values, or another
-- value.
pub data Guess : Type 0 where
  int64 : ℤ → Guess
  value : Any → Guess

abbrev pub into_list : Any → Result Guess
into_list (list xs) = ok (value (list xs))
into_list _ = mismatch

abbrev pub into_object : Any → Result Guess
into_object (object m) = ok (value (object m))
into_object _ = mismatch

abbrev pub into_string : Any → Result Guess
into_string (str s) = ok (value (str s))
into_string _ = mismatch

abbrev pub into_any : Any → Result Guess
into_any v = ok (value v)

abbrev pub guess_number : Option ℤ → Option ℕ → Result Guess → Result Guess
guess_number (some n) f other = ok (int64 n)
guess_number none (some f) other = ok (value (float64 f))
guess_number none none other = other

abbrev pub guess_next : Result Guess → Result (List Guess) → Result (List Guess)
guess_next (ok v) rest = rest >>= λ vs. ok (v ∷ vs)
guess_next (err e) rest = err e
guess_next (panic r) rest = panic r

-- `read` is the decoding of the value at the front of a text, `read_file` that of the text in a file.
module _ (read : String → Result Any) (read_file : String → Result Any)
    (parse_float64 : String → Option ℕ) where
  -- The switch on the first character.
  unfoldable pub guess_by_first : String → Result Guess
  guess_by_first String.[] = ok (value (str ""))
  guess_by_first (String.◌∷◌ c rest) =
      let input = String.◌∷◌ c rest in
      if nat_eq (code c) 64
      then read_file rest >>= into_any
      else if nat_eq (code c) 91
      then read input >>= into_list
      else if nat_eq (code c) 123
      then read input >>= into_object
      else if nat_eq (code c) 34
      then read input >>= into_string
      else ok (value (str input))

  -- `GuessJson`
  unfoldable pub guess_json : String → Result Guess
  guess_json input =
      if input == ""
      then ok (value (str ""))
      else if input == "true" || input == "false"
      then ok (value (bool (input == "true")))
      else if input == "null"
      then ok (value nil)
      else guess_number (parse_int64 input) (parse_float64 input) (guess_by_first input)

  -- `GuessJsonArray`; with an error it also returns what was guessed before, which no caller reads.
  unfoldable pub guess_json_array : List String → Result (List Guess)
  guess_json_array [] = ok []
  guess_json_array (input ∷ inputs) =
      let rest = guess_json_array inputs in guess_next (guess_json input) rest
