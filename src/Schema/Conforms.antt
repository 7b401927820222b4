-- ===== src/Schema/Conforms.antt =====
-- When data fits a schema, as a predicate by recursion on the schema, with no order of tests, no
-- stack and no error texts. A Go map is read by its lookups and by its entries.
pub mod Laws
use Prim.Native.String
use jsoff.Base.{
  ℕ, ℤ, pos, ◌≤ℤ◌, ◌<ℤ◌, ◌≤◌, String, Bool, true, false, Option, none, some, List, [], ◌∷◌, ◌≡◌,
  ◌⊎◌, lookup, length, drop, All,
}
use jsoff.Value.{Any, nil, bool, int, float64, number, str, list, object, items, fields}
use jsoff.Value.Number.{float_lt, float_le, float_of_int, parse_int64, parse_float}
use jsoff.Schema.{
  Range, Schema, any_schema, null_schema, bool_schema, number_schema, integer_schema, string_schema,
  any_of, all_of, not_schema, list_schema, tuple_schema, method_schema, object_schema, Schemas,
  no_more, child, schemas, Maybe, absent, present, Props, no_props, prop, props,
}
use jsoff.Schema.Scan.{list_of}

-- A bound that holds where it is given.
abbrev pub Given {ℓ} : {A : Type ℓ} → (A → Type 0) → Option A → Type 0
Given P none = Unit
Given P (some a) = P a

-- Within the bounds of an integer schema; an exclusive bound is not itself allowed.
abbrev pub IntInRange : Range ℤ → ℤ → Type 0
IntInRange r n =
    Given (λ most. (n ≤ℤ most) × (r.exclusive_maximum ≡ some true → n <ℤ most)) r.maximum
    × Given (λ least. (least ≤ℤ n) × (r.exclusive_minimum ≡ some true → least <ℤ n)) r.minimum

-- The same by the order of float64, under which a NaN is neither above nor below any bound.
abbrev pub FloatInRange : Range ℕ → ℕ → Type 0
FloatInRange r f =
    Given
      (λ most.
        (r.exclusive_maximum ≡ some true → float_le most f ≡ false)
        × ((r.exclusive_maximum ≡ some true → ⊥) → float_lt most f ≡ false))
      r.maximum
    × Given
        (λ least.
          (r.exclusive_minimum ≡ some true → float_le f least ≡ false)
          × ((r.exclusive_minimum ≡ some true → ⊥) → float_lt f least ≡ false))
        r.minimum

-- The float64 and the integer that data stands for, if it is a number.
abbrev pub float_value : Any → Option ℕ
float_value (number text) = some (parse_float text).0
float_value (int n) = some (float_of_int n)
float_value (float64 f) = some f
float_value _ = none

abbrev pub int_value : Any → Option ℤ
int_value (number text) = parse_int64 text
int_value (int n) = some n
int_value _ = none

-- There is a value, and it has the property.
abbrev pub Has {ℓ} : {A : Type ℓ} → (A → Type 0) → Option A → Type 0
Has P none = ⊥
Has P (some a) = P a

-- A length within the bounds that are given.
abbrev pub LengthIn : Option ℤ → Option ℤ → ℕ → Type 0
LengthIn fewest most n = Given (λ m. pos n ≤ℤ m) most × Given (λ m. m ≤ℤ pos n) fewest

abbrev pub TupleLength : Maybe → ℕ → ℕ → Type 0
TupleLength absent have want = have ≡ want
TupleLength (present _) have want = want ≤ have

-- What `found` says of a value that is there, and `missing` where there is none.
abbrev pub Entry : (Any → Type 0) → Type 0 → Option Any → Type 0
Entry found missing none = missing
Entry found missing (some v) = found v

abbrev pub MessageBody :
    (List Any → Type 0) → (Any → Type 0) → Option (List Any) → Option Any → Type 0
MessageBody params result (some given) r = params given
MessageBody params result none (some r) = result r
MessageBody params result none none = ⊥

abbrev mutual
  pub Conforms : Schema → Any → Type 0
  Conforms (any_schema m) d = Unit
  Conforms (null_schema m) d = d ≡ nil
  Conforms (bool_schema m) d = (b : Bool) × (d ≡ bool b)
  Conforms (number_schema m r) d = Has (FloatInRange r) (float_value d)
  Conforms (integer_schema m r) d = Has (IntInRange r) (int_value d)
  Conforms (string_schema m longest shortest) (str s) = LengthIn shortest longest (String.len s)
  Conforms (string_schema m longest shortest) _ = ⊥
  Conforms (any_of m choices) d = ConformsSome choices d
  Conforms (all_of m choices) d = ConformsAll choices d
  Conforms (not_schema m s) d = ¬ Conforms s d
  Conforms (list_schema m s fewest most) (list xs) =
      LengthIn fewest most (length (items xs)) × All (Conforms s) (items xs)
  Conforms (list_schema m s fewest most) _ = ⊥
  Conforms (tuple_schema m children more) (list xs) =
      TupleLength more (length (items xs)) (length (schemas children))
      × ConformsEach children (items xs)
      × ConformsMore more (drop (length (schemas children)) (items xs))
  Conforms (tuple_schema m children more) _ = ⊥
  Conforms (method_schema m params returns more) (object obj) =
      MessageBody
        (λ given.
          (length (schemas params) ≤ length given)
          × ConformsEach params given
          × ConformsExtra more (drop (length (schemas params)) given))
        (ConformsResult returns) (list_of (lookup "params" (fields obj)))
        (lookup "result" (fields obj))
  Conforms (method_schema m params returns more) _ = ⊥
  Conforms (object_schema m properties requires more) (object obj) =
      ConformsProps properties requires (fields obj)
      × ConformsOthers more (props properties) (fields obj)
  Conforms (object_schema m properties requires more) _ = ⊥

  pub ConformsSome : Schemas → Any → Type 0
  ConformsSome no_more d = ⊥
  ConformsSome (child s ss) d = Conforms s d ⊎ ConformsSome ss d

  pub ConformsAll : Schemas → Any → Type 0
  ConformsAll no_more d = Unit
  ConformsAll (child s ss) d = Conforms s d × ConformsAll ss d

  -- Position by position, as far as both lists go.
  pub ConformsEach : Schemas → List Any → Type 0
  ConformsEach no_more xs = Unit
  ConformsEach (child s ss) [] = Unit
  ConformsEach (child s ss) (x ∷ xs) = Conforms s x × ConformsEach ss xs

  pub ConformsMore : Maybe → List Any → Type 0
  ConformsMore absent rest = Unit
  ConformsMore (present s) rest = All (Conforms s) rest

  pub ConformsExtra : Maybe → List Any → Type 0
  ConformsExtra absent rest = rest ≡ []
  ConformsExtra (present s) rest = All (Conforms s) rest

  pub ConformsResult : Maybe → Any → Type 0
  ConformsResult absent r = Unit
  ConformsResult (present s) r = Conforms s r

  -- Each property that is there fits its schema, and one that is missing is not required.
  pub ConformsProps : Props → List (String × Bool) → List (String × Any) → Type 0
  ConformsProps no_props requires obj = Unit
  ConformsProps (prop name s ps) requires obj =
      Entry (Conforms s) (lookup name requires ≡ none) (lookup name obj)
      × ConformsProps ps requires obj

  -- Each entry whose key is no property fits the additional schema, if there is one.
  pub ConformsOthers : Maybe → List (String × Schema) → List (String × Any) → Type 0
  ConformsOthers absent checked obj = Unit
  ConformsOthers (present s) checked obj =
      All (λ (e : String × Any). lookup e.0 checked ≡ none → Conforms s e.1) obj
