-- ===== src/Value/Read/Text.antt =====
-- A printer and a reader of JSON texts without spaces and escapes, for the tests.
use Prim.Native.Char.{Char, code}
use Prim.Native.String
use jsoff.Base.{ℕ, zero, suc, String, Bool, true, false, ◌||◌, nat_eq, if◌then◌else◌, ◌≡◌, refl}
use jsoff.Value.{
  Any, nil, bool, int, float64, number, str, list, object, other, Items, end, item, Fields,
  none_left, field,
}
use jsoff.Result.{Result, ok, err, foreign, ◌>>=◌}
use jsoff.Value.Read.Samples.{decimal}

abbrev pub quoted : String → String
quoted s = String.◌++◌ "\"" (String.◌++◌ s "\"")

-- How JSON prints a value, without escapes in texts; a float is 0.5 and a value of another type null.
unfoldable mutual
  unfolding decimal

  pub print_value : Any → String
  print_value nil = "null"
  print_value (bool true) = "true"
  print_value (bool false) = "false"
  print_value (int n) = decimal n
  print_value (float64 f) = "0.5"
  print_value (number literal) = literal
  print_value (str s) = quoted s
  print_value (list xs) = String.◌++◌ "[" (String.◌++◌ (print_items xs) "]")
  print_value (object m) = String.◌++◌ "{" (String.◌++◌ (print_fields m) "}")
  print_value (other n) = "null"

  print_items : Items → String
  print_items end = ""
  print_items (item v end) = print_value v
  print_items (item v (item w vs)) =
      String.◌++◌ (print_value v) (String.◌++◌ "," (print_items (item w vs)))

  print_fields : Fields → String
  print_fields none_left = ""
  print_fields (field k v none_left) = String.◌++◌ (quoted k) (String.◌++◌ ":" (print_value v))
  print_fields (field k v (field j w m)) =
      String.◌++◌ (quoted k) (
        String.◌++◌ ":"
          (String.◌++◌ (print_value v) (String.◌++◌ "," (print_fields (field j w m)))))

abbrev is_char : ℕ → Char → Bool
is_char n c = nat_eq (code c) n

-- A text up to its quote, the literal of a number, and what follows.
take_text : String → String × String
take_text String.[] = ("", "")
take_text (String.◌∷◌ c s) =
    let rest = take_text s in if is_char 34 c then ("", s) else (String.◌∷◌ c rest.0, rest.1)

take_literal : String → String × String
take_literal String.[] = ("", "")
take_literal (String.◌∷◌ c s) =
    let rest = take_literal s in
    if is_char 44 c || is_char 93 c || is_char 125 c
    then ("", String.◌∷◌ c s)
    else (String.◌∷◌ c rest.0, rest.1)

skip : ℕ → String → String
skip zero s = s
skip (suc n) String.[] = ""
skip (suc n) (String.◌∷◌ c s) = skip n s

-- What the first character opens.
pub data Opens : Type 0 where
  text : Opens
  sequence : Opens
  mapping : Opens
  word : Any → ℕ → Opens
  literal : Opens

abbrev opens : Char → Opens
opens c =
    if is_char 34 c
    then text
    else if is_char 91 c
    then sequence
    else if is_char 123 c
    then mapping
    else if is_char 110 c
    then word nil 3
    else if is_char 116 c
    then word (bool true) 3
    else if is_char 102 c
    then word (bool false) 4
    else literal

abbrev bad_json : {A : Type 0} → Result A
bad_json = err (foreign "bad json")

-- A comma is skipped.
abbrev after_comma : String → String
after_comma String.[] = ""
after_comma (String.◌∷◌ c s) = if is_char 44 c then s else String.◌∷◌ c s

-- The fuel is the length of the text at most.
mutual
  unfolding take_text take_literal skip

  read_front : ℕ → String → Result (Any × String)
  read_front zero s = bad_json
  read_front (suc fuel) String.[] = bad_json
  read_front (suc fuel) (String.◌∷◌ c s) = elim (opens c) [
    | text ↦ ok (str (take_text s).0, (take_text s).1)
    | sequence ↦ (do xs ← read_items fuel s; ok (list xs.0, xs.1))
    | mapping ↦ (do m ← read_fields fuel s; ok (object m.0, m.1))
    | word v n ↦ ok (v, skip n s)
    | literal ↦ ok (number (take_literal (String.◌∷◌ c s)).0, (take_literal (String.◌∷◌ c s)).1)
  ]

  read_items : ℕ → String → Result (Items × String)
  read_items zero s = bad_json
  read_items (suc fuel) String.[] = bad_json
  read_items (suc fuel) (String.◌∷◌ c s) = elim (is_char 93 c) [
    | true ↦ ok (end, s)
    | false ↦ (do
      v ← read_front fuel (String.◌∷◌ c s)
      vs ← read_items fuel (after_comma v.1)
      ok (item v.0 vs.0, vs.1))
  ]

  read_fields : ℕ → String → Result (Fields × String)
  read_fields zero s = bad_json
  read_fields (suc fuel) String.[] = bad_json
  read_fields (suc fuel) (String.◌∷◌ c s) = elim (is_char 125 c) [
    | true ↦ ok (none_left, s)
    | false ↦ (do
      v ← read_front fuel (skip 1 (take_text s).1)
      m ← read_fields fuel (after_comma v.1)
      ok (field (take_text s).0 v.0 m.0, m.1))
  ]

unfoldable pub read_value : String → Result Any
unfolding read_front read_items read_fields
read_value s = do v ← read_front 200 s; ok v.0

reads_nested :
    read_value "{\"a\":[1,-2.5,{}],\"b\":null,\"c\":\"x\"}"
    ≡ ok (
        object (
          field "a"
            (list (item (number "1") (item (number "-2.5") (item (object none_left) end))))
            (field "b" nil (field "c" (str "x") none_left))))
unfolding read_value
reads_nested = refl
