-- ===== src/Schema/Convert/Laws.antt =====
-- What the conversion of a node to a map with a type keeps, and where it fails.
use jsoff.Base.{
  String, Bool, true, false, ◌==◌, Option, none, some, [], ◌∷◌, ◌≡◌, ◌≢◌, refl, ap, sym, ◌∙◌,
  lookup, store, lookup-store, is_some, if◌then◌else◌, arith, Bool-cases, Option-cases, inl, inr,
  eq_iff,
}
use jsoff.Value.{Any, str, object, fields, to_fields}
use jsoff.Message.Document.RoundTrip.{fields-to_fields}
use jsoff.Schema.Document.{Entries}
use jsoff.Schema.Convert.{
  guess_type, with_type, typed, convert_type_map, convert_attr_map, convert_values, or_empty,
  convert_attr_map_of_map, string_in_list, simple_types,
}

type_of-store : (t : Any) (m : Entries) → is_some (lookup "type" (store "type" t m)) ≡ true
type_of-store t m = rw (lookup-store "type" "type" t m) refl

with_type-typed :
    (m : Entries) (g : Option String)
    → is_some (lookup "type" m) ≡ false
    → guess_type m ≡ g
    → typed (with_type g m) ≡ with_type g m
with_type-typed m none untyped e = rw (untyped, e) refl
with_type-typed m (some t) untyped e = rw (type_of-store (str t) m) refl

typed-typed : (m : Entries) → typed (typed m) ≡ typed m
typed-typed m = elim (Bool-cases (is_some (lookup "type" m))) [
  | inl e ↦ rw e (rw e refl)
  | inr e ↦ rw e (with_type-typed m (guess_type m) e refl)
]

-- A map that `convertTypeMap` returned converts to itself.
pub convert_type_map-idempotent :
    (v : Any) (m : Entries)
    → convert_type_map v ≡ some m
    → convert_type_map (object (to_fields m)) ≡ some m
unfolding convert_type_map lookup
convert_type_map-idempotent (str t) m h =
    let e : ("type", str t) ∷ [] ≡ m = ground arith in
    ap (λ r. some (typed (fields (to_fields r)))) (sym e) ∙ ap some e
convert_type_map-idempotent (object fs) m h =
    let e : typed (fields fs) ≡ m = ground arith in
    ap (λ r. some (typed r)) (fields-to_fields m)
    ∙ ap some (ap typed (sym e) ∙ typed-typed (fields fs) ∙ e)
convert_type_map-idempotent _ m h = cc

lookup-with_type :
    (m : Entries) (k : String) (g : Option String)
    → k ≢ "type"
    → lookup k (with_type g m) ≡ lookup k m
lookup-with_type m k none other = refl
lookup-with_type m k (some t) other =
    ground (arith, lookup-store "type" k (str t) m, eq_iff "type" k)

typed-keeps : (m : Entries) (k : String) → k ≢ "type" → lookup k (typed m) ≡ lookup k m
typed-keeps m k other = elim (Bool-cases (is_some (lookup "type" m))) [
  | inl e ↦ rw e refl
  | inr e ↦ rw e (lookup-with_type m k (guess_type m) other)
]

-- `convertTypeMap` of a map changes no entry but "type", and that only if the map has none.
pub convert_type_map-keeps :
    (fs : Entries) (m : Entries) (k : String)
    → convert_type_map (object (to_fields fs)) ≡ some m
    → (k ≢ "type" → lookup k m ≡ lookup k fs)
      × (is_some (lookup "type" fs) ≡ true → lookup "type" m ≡ lookup "type" fs)
unfolding convert_type_map
convert_type_map-keeps fs m k h =
    let e : typed fs ≡ m = ap typed (sym (fields-to_fields fs)) ∙ ground arith in
    (
      λ other. ap (lookup k) (sym e) ∙ typed-keeps fs k other,
      λ given. ap (lookup "type") (sym e) ∙ rw given refl,
    )

convert_values-guessed :
    (m : Entries) (t : String)
    → string_in_list t simple_types ≡ false
    → convert_values (store "type" (str t) m) ≡ none
unfolding convert_values store convert_type_map
convert_values-guessed [] t h = rw h refl
convert_values-guessed ((k, v) ∷ m) t h = elim (Bool-cases (k == "type")) [
  | inl e ↦ rw (e, convert_values, h) refl
  | inr e ↦ elim (Option-cases (convert_type_map v)) [
    | inl e' ↦ rw (e, convert_values, e') refl
    | inr (node, e') ↦ rw (e, convert_values, e', convert_values-guessed m t h) refl
  ]
]

if-then_some :
    (b : Bool) (x t : String) (rest : Option String)
    → (if b then some x else rest) ≡ some t
    → string_in_list x simple_types ≡ false
    → (rest ≡ some t → string_in_list t simple_types ≡ false)
    → string_in_list t simple_types ≡ false
if-then_some true x t rest h e later =
    let same : x ≡ t = ground arith in ap (λ y. string_in_list y simple_types) (sym same) ∙ e
if-then_some false x t rest h e later = later h

-- The types that are guessed are none of those that a single string may name.
guess_type-eq-some :
    (m : Entries) (t : String) → guess_type m ≡ some t → string_in_list t simple_types ≡ false
unfolding guess_type string_in_list
guess_type-eq-some m t h = if-then_some (is_some (lookup "params" m)) "method" t _ h refl λ h1.
    if-then_some (is_some (lookup "properties" m)) "object" t _ h1 refl λ h2.
      if-then_some (is_some (lookup "anyOf" m)) "anyOf" t _ h2 refl λ h3.
        if-then_some (is_some (lookup "allOf" m)) "allOf" t _ h3 refl
          λ h4. if-then_some (is_some (lookup "not" m)) "not" t _ h4 refl λ h5. cc

-- A map of properties that has no property "type", but has a property "params", "properties",
-- "anyOf", "allOf" or "not", is refused, whatever its properties are: the type that is guessed for
-- the map is stored among them.
pub convert_attr_map_of_map-refuses :
    (node fs : Entries) (k : String) (optional : Bool)
    → lookup k node ≡ some (object (to_fields fs))
    → is_some (lookup "type" fs) ≡ false
    → is_some (guess_type fs) ≡ true
    → convert_attr_map_of_map node k optional ≡ none
unfolding convert_attr_map_of_map convert_attr_map convert_type_map
convert_attr_map_of_map-refuses node fs k optional h untyped guessed =
    rw (h, fields-to_fields fs, untyped, or_empty) (guesses (guess_type fs) refl)
  where
    guesses :
        (g : Option String)
        → guess_type fs ≡ g
        → convert_values (with_type (guess_type fs) fs) ≡ none
    guesses none e = cc
    guesses (some t) e = rw e (convert_values-guessed fs t (guess_type-eq-some fs t e))
