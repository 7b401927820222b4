-- ===== src/Schema/Convert.antt =====
-- schema/convert.go: reading the attributes of a node of a schema's document. A map is the list of
-- its entries; `int n` is a Go int. The source writes the type that it guesses into the map itself,
-- which no other code reads; here the map with it is the result. A pair `(_, false)` is `none`.
pub mod Laws
use jsoff.Base.{
  ℕ, ℤ, String, Bool, true, false, ◌||◌, ◌==◌, Option, none, some, List, [], ◌∷◌, map, lookup,
  store, is_some, if◌then◌else◌,
}
use jsoff.Value.{Any, bool, int, float64, number, str, list, object, items, fields}
use jsoff.Value.Number.{float_of_int, parse_int64, parse_float}
use jsoff.Schema.Document.{Entries}

infixl 5 ◌>>=◌
abbrev pub ◌>>=◌ {ℓ κ} : {A : Type ℓ} {B : Type κ} → Option A → (A → Option B) → Option B
none >>= f = none
some a >>= f = f a

unfoldable pub string_in_list : String → List String → Bool
string_in_list a [] = false
string_in_list a (c ∷ cs) = c == a || string_in_list a cs

-- The types that a single string may name.
abbrev pub simple_types : List String
simple_types = "string" ∷ "number" ∷ "integer" ∷ "bool" ∷ "null" ∷ []

-- The type of a map that has no "type".
unfoldable pub guess_type : Entries → Option String
guess_type m =
    if is_some (lookup "params" m)
    then some "method"
    else if is_some (lookup "properties" m)
    then some "object"
    else if is_some (lookup "anyOf" m)
    then some "anyOf"
    else if is_some (lookup "allOf" m)
    then some "allOf"
    else if is_some (lookup "not" m)
    then some "not"
    else none

abbrev pub with_type : Option String → Entries → Entries
with_type none m = m
with_type (some t) m = store "type" (str t) m

abbrev pub typed : Entries → Entries
typed m = if is_some (lookup "type" m) then m else with_type (guess_type m) m

-- `convertTypeMap`
unfoldable pub convert_type_map : Any → Option Entries
convert_type_map (str t) =
    if string_in_list t simple_types then some (("type", str t) ∷ []) else none
convert_type_map (object m) = some (typed (fields m))
convert_type_map _ = none

-- An attribute that is missing has a default if it is optional.
abbrev pub attribute {ℓ} : {A : Type ℓ} → Option Any → Bool → A → (Any → Option A) → Option A
attribute (some v) optional missing convert = convert v
attribute none true missing convert = some missing
attribute none false missing convert = none

unfoldable pub convert_attr_map : Entries → String → Bool → Option Entries
convert_attr_map node attr_name optional =
    attribute (lookup attr_name node) optional [] convert_type_map

abbrev pub as_list : Any → Option (List Any)
as_list (list xs) = some (items xs)
as_list _ = none

unfoldable pub convert_attr_list : Entries → String → Bool → Option (List Any)
convert_attr_list node attr_name optional = attribute (lookup attr_name node) optional [] as_list

abbrev pub as_bool : Any → Option Bool
as_bool (bool b) = some b
as_bool _ = none

unfoldable pub convert_attr_bool : Entries → String → Bool → Option Bool
convert_attr_bool node attr_name optional = attribute (lookup attr_name node) optional false as_bool

abbrev pub as_int : Any → Option ℤ
as_int (int n) = some n
as_int (number text) = parse_int64 text
as_int _ = none

unfoldable pub convert_attr_int : Entries → String → Bool → Option ℤ
convert_attr_int node attr_name optional =
    attribute (lookup attr_name node) optional (ℤ.pos 0) as_int

-- A float64 of a literal that is in range.
abbrev pub in_range : ℕ × Bool → Option ℕ
in_range (f, true) = some f
in_range (f, false) = none

abbrev pub as_float : Any → Option ℕ
as_float (int n) = some (float_of_int n)
as_float (float64 f) = some f
as_float (number text) = in_range (parse_float text)
as_float _ = none

unfoldable pub convert_attr_float : Entries → String → Bool → Option ℕ
convert_attr_float node attr_name optional = attribute (lookup attr_name node) optional 0 as_float

-- A loop that converts each value, and fails with the first that it cannot convert.
unfoldable pub convert_each {ℓ} : {A : Type ℓ} → (Any → Option A) → List Any → Option (List A)
convert_each convert [] = some []
convert_each convert (v ∷ vs) = do a ← convert v; rest ← convert_each convert vs; some (a ∷ rest)

unfoldable pub convert_values : Entries → Option (List (String × Entries))
convert_values [] = some []
convert_values ((k, v) ∷ m) = do
  node ← convert_type_map v
  nodes ← convert_values m
  some ((k, node) ∷ nodes)

-- An attribute that is no map counts as missing.
abbrev pub or_empty : Option Entries → Bool → Option (List (String × Entries))
or_empty (some m) optional = convert_values m
or_empty none true = some []
or_empty none false = none

unfoldable pub convert_attr_map_of_map : Entries → String → Bool → Option (List (String × Entries))
convert_attr_map_of_map node attr_name optional =
    or_empty (convert_attr_map node attr_name false) optional

abbrev pub as_list_of {ℓ} : {A : Type ℓ} → (Any → Option A) → Any → Option (List A)
as_list_of convert (list xs) = convert_each convert (items xs)
as_list_of convert _ = none

unfoldable pub convert_attr_list_of_map : Entries → String → Bool → Option (List Entries)
convert_attr_list_of_map node attr_name optional =
    attribute (lookup attr_name node) optional [] (as_list_of convert_type_map)

abbrev pub as_string : Any → Option String
as_string (str s) = some s
as_string _ = none

unfoldable pub convert_attr_list_of_string : Entries → String → Bool → Option (List String)
convert_attr_list_of_string node attr_name optional =
    attribute (lookup attr_name node) optional [] (as_list_of as_string)
