-- ===== src/Schema/Equal/Sound.antt =====
-- Equal schemas accept the same values.
use jsoff.Base.{
  ℕ, suc, ◌≤◌, String, Bool, true, false, ◌&&◌, Option, none, some, List, [], ◌∷◌, ◌≡◌, refl, ◌↔◌,
  ◌==◌, lookup, length, nat_eq, eq_iff, Bool-cases, inl, inr, eq_ℤ, arith,
}
use mathlib.Core.Path.{subst}
use jsoff.Value.{Any}
use jsoff.Value.Number.{float_eq}
use jsoff.Schema.{
  Schema, any_schema, null_schema, bool_schema, number_schema, integer_schema, string_schema,
  any_of, all_of, not_schema, list_schema, tuple_schema, method_schema, object_schema, Schemas,
  no_more, child, Maybe, absent, present, Props, no_props, prop, props,
}
use jsoff.Schema.Equal.{
  pointer_equal, same_range, same_mixin, same_length, value_map_equal, equal, each_equal, sub_equal,
  props_in,
}
use jsoff.Schema.Conforms.{IntInRange, FloatInRange, float_value, int_value}
use jsoff.Schema.Validator.{SchemaValidator, done}
use jsoff.Schema.Scan.{validate}
use jsoff.Schema.Conforms.Laws.{validate-Conforms}
use jsoff.Schema.Equal.Reflexive.{IsComparable, AllComparable, SubComparable, PropsComparable}
use jsoff.Schema.Equal.Keys.{Within, same_keys}
use jsoff.Schema.Equal.Parts.{
  both, int_pointer-path, IntInRange-iff, FloatInRange-iff, Has-iff, value_map_equal-keys,
}
use jsoff.Schema.Equal.Agree.{
  Agree, AgreeList, AgreeMaybe, some_iff, all_iff, not_iff, string_iff, list_iff, tuple_iff,
  method_iff,
}
use jsoff.Schema.Equal.Objects.{Matches, object_iff}

-- `&&` of three, four and five tests.
pub three : (a b c : Bool) → (a && b && c) ≡ true → (a ≡ true) × (b ≡ true) × (c ≡ true)
three true true true h = (refl, refl, refl)
three a b c h = ground arith

pub four :
    (a b c d : Bool) → (a && b && c && d) ≡ true → (a ≡ true) × (b ≡ true) × (c ≡ true) × (d ≡ true)
four true true true true h = (refl, refl, refl, refl)
four a b c d h = ground arith

Matches-keys : (m n : List (String × Schema)) → Matches m n → Within m n
Matches-keys m n pairs k missing = go (lookup k m) refl
  where
    go : (o : Option Schema) → lookup k m ≡ o → lookup k m ≡ none
    go none e = e
    go (some s) e = let (t, found, agree) = pairs k s e in cc

same_suc : (a b : ℕ) → nat_eq (suc a) (suc b) ≡ true → nat_eq a b ≡ true
same_suc a b h = ground arith

zero_suc : (a : ℕ) → ¬ (nat_eq 0 (suc a) ≡ true)
zero_suc a h = ground arith

same-le : (a b : ℕ) → nat_eq a b ≡ true → b ≤ a
same-le a b h = ground arith

first_found :
    (j k : String) (s t : Schema) (m : List (String × Schema))
    → j == k ≡ true
    → lookup k ((j, s) ∷ m) ≡ some t
    → s ≡ t
unfolding lookup
first_found j k s t m same e = ground arith

lookup-IsComparable :
    (ps : Props) (k : String) (t : Schema)
    → PropsComparable ps
    → lookup k (props ps) ≡ some t
    → IsComparable t
unfolding lookup
lookup-IsComparable no_props k t h e = cc
lookup-IsComparable (prop j s ps) k t (h, hs) e = elim (Bool-cases (j == k)) [
  | inl same ↦ subst IsComparable (first_found j k s t (props ps) same e) h
  | inr differ ↦ lookup-IsComparable ps k t hs (ground arith)
]

none-Matches : (n : List (String × Schema)) → Matches [] n
unfolding lookup
none-Matches n k s e = cc

-- `props_in` after the look-up of the first property.
abbrev after : String → Schema → Props → List (String × Schema) → Option Schema → Bool
after j s ps n none = false
after j s ps n (some t) = equal s t && props_in ps n

-- A property of the first map is looked up in the second.
next-Matches :
    (j : String) (s : Schema) (ps : Props) (n : List (String × Schema)) (o : Option Schema)
    → lookup j n ≡ o
    → props_in (prop j s ps) n ≡ true
    → ((t : Schema) → lookup j n ≡ some t → equal s t ≡ true → Agree s t)
    → (props_in ps n ≡ true → Matches (props ps) n)
    → Matches (props (prop j s ps)) n
unfolding props_in lookup
next-Matches j s ps n none found e here later k u look =
    cc (subst (λ o. after j s ps n o ≡ true) found e)
next-Matches j s ps n (some t) found e here later k u look =
    let (same, rest) =
      both (equal s t) (props_in ps n) (subst (λ o. after j s ps n o ≡ true) found e) in
    elim (Bool-cases (j == k)) [
      | inl eq ↦ (
        t,
        subst (λ x. lookup x n ≡ some t) ((eq_iff j k).0 eq) found,
        subst (λ x. Agree x t) (first_found j k s u (props ps) eq look) (here t found same),
      )
      | inr differ ↦ later rest k u (ground arith)
    ]

mutual
  unfolding equal each_equal sub_equal props_in

  agree : (s t : Schema) → IsComparable s → IsComparable t → equal s t ≡ true → Agree s t
  agree (any_schema m) (any_schema n) h h' e = λ d. (λ g. g, λ g. g)
  agree (null_schema m) (null_schema n) h h' e = λ d. (λ g. g, λ g. g)
  agree (bool_schema m) (bool_schema n) h h' e = λ d. (λ g. g, λ g. g)
  agree (number_schema m r) (number_schema n t) h h' e =
      let (_, same) = both (same_mixin m n) (same_range float_eq r t) e in
      λ d. Has-iff (FloatInRange r) (FloatInRange t) (FloatInRange-iff r t same) (float_value d)
  agree (integer_schema m r) (integer_schema n t) h h' e =
      let (_, same) = both (same_mixin m n) (same_range eq_ℤ r t) e in
      λ d. Has-iff (IntInRange r) (IntInRange t) (IntInRange-iff r t same) (int_value d)
  agree (string_schema m l k) (string_schema n l' k') h h' e =
      let (_, most, least) =
        three (same_mixin m n) (pointer_equal eq_ℤ l l') (pointer_equal eq_ℤ k k') e in
      string_iff m n l l' k k' (int_pointer-path l l' most) (int_pointer-path k k' least)
  agree (any_of m ss) (any_of n ts) h h' e = some_iff ss ts (
      agree_list ss ts h h' (
        both (same_length ss ts) (each_equal ss ts)
          (both (same_mixin m n) (same_length ss ts && each_equal ss ts) e).1))
  agree (all_of m ss) (all_of n ts) h h' e = all_iff ss ts (
      agree_list ss ts h h' (
        both (same_length ss ts) (each_equal ss ts)
          (both (same_mixin m n) (same_length ss ts && each_equal ss ts) e).1))
  agree (not_schema m s) (not_schema n t) h h' e =
      not_iff s t (agree s t h h' (both (same_mixin m n) (equal s t) e).1)
  agree (list_schema m s k l) (list_schema n t k' l') h h' e =
      let (_, most, fewest, same) =
        four (same_mixin m n) (pointer_equal eq_ℤ l l') (pointer_equal eq_ℤ k k') (equal s t) e in
      list_iff m n s t k k' l l' (int_pointer-path k k' fewest) (int_pointer-path l l' most)
        (agree s t h h' same)
  agree (tuple_schema m ss o) (tuple_schema n ts p) (h, ho) (h', hp) e =
      let (_, more, same) =
        three (same_mixin m n) (sub_equal o p) (same_length ss ts && each_equal ss ts) e in
      tuple_iff m n ss ts o p
        (agree_list ss ts h h' (both (same_length ss ts) (each_equal ss ts) same))
        (agree_maybe o p ho hp more)
  agree (method_schema m ss r o) (method_schema n ts q p) (h, hr, ho) (h', hq, hp) e =
      let (_, more, same, returns) =
        four (same_mixin m n) (sub_equal o p) (same_length ss ts && each_equal ss ts)
          (sub_equal r q) e in
      method_iff m n ss ts r q o p
        (agree_list ss ts h h' (both (same_length ss ts) (each_equal ss ts) same))
        (agree_maybe r q hr hq returns) (agree_maybe o p ho hp more)
  agree (object_schema m ps requires o) (object_schema n qs requires' p) (d, dr, h, ho)
        (d', dr', h', hp) e =
      let (_, same, required, more) =
        four (same_mixin m n)
          (nat_eq (length (props ps)) (length (props qs)) && props_in ps (props qs))
          (value_map_equal requires requires') (sub_equal o p) e in
      let (size, found) =
        both (nat_eq (length (props ps)) (length (props qs))) (props_in ps (props qs)) same in
      let pairs = agree_props ps (props qs) h (λ k t. lookup-IsComparable qs k t h') found in
      let within = Matches-keys (props ps) (props qs) pairs in
      object_iff m n ps qs requires requires' o p d d' pairs
        (λ k. (same_keys (props ps) (props qs) d (same-le _ _ size) within k, within k))
        (value_map_equal-keys requires requires' dr required) (agree_maybe o p ho hp more)
  agree s t h h' e = cc

  agree_list :
      (ss ts : Schemas)
      → AllComparable ss
      → AllComparable ts
      → (same_length ss ts ≡ true) × (each_equal ss ts ≡ true)
      → AgreeList ss ts
  agree_list no_more no_more h h' e = tt
  agree_list no_more (child t ts) h h' (size, e) = absurd (zero_suc _ size)
  agree_list (child s ss) no_more h h' (size, e) = cc
  agree_list (child s ss) (child t ts) (h, hs) (h', hs') (size, e) =
      let (here, later) = both (equal s t) (each_equal ss ts) e in
      (agree s t h h' here, agree_list ss ts hs hs' (same_suc _ _ size, later))

  agree_maybe :
      (o p : Maybe) → SubComparable o → SubComparable p → sub_equal o p ≡ true → AgreeMaybe o p
  agree_maybe absent absent h h' e = tt
  agree_maybe (present s) (present t) h h' e = agree s t h h' e
  agree_maybe absent (present t) h h' e = cc
  agree_maybe (present s) absent h h' e = cc

  agree_props :
      (ps : Props) (n : List (String × Schema))
      → PropsComparable ps
      → ((k : String) (t : Schema) → lookup k n ≡ some t → IsComparable t)
      → props_in ps n ≡ true
      → Matches (props ps) n
  agree_props no_props n h h' e = none-Matches n
  agree_props (prop j s ps) n (h, hs) h' e =
      next-Matches j s ps n (lookup j n) refl e (λ t found same. agree s t h (h' j t found) same)
        (λ rest. agree_props ps n hs h' rest)

-- If two schemas are equal, in which no float bound is a NaN and no map has a key twice, then Validate accepts
-- a value for the one exactly if it does for the other.
pub equal-validate :
    (s t : Schema)
    → IsComparable s
    → IsComparable t
    → equal s t ≡ true
    → (data' : Any) (v : SchemaValidator)
    → (validate s data' v ≡ done none v) ↔ (validate t data' v ≡ done none v)
equal-validate s t h h' e data' v =
    let (sound, complete) = validate-Conforms s data' v in
    let (sound', complete') = validate-Conforms t data' v in
    let (to, from) = agree s t h h' e data' in
    (λ g. complete' (to (sound g)), λ g. complete (from (sound' g)))
