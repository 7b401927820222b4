-- ===== src/Schema/Equal/Reflexive.antt =====
-- A schema equals itself, where its numbers and maps allow that.
use jsoff.Base.{
  ℕ, ℤ, pos, negsuc, String, Bool, true, false, Option, none, some, List, [], ◌∷◌, ◌≡◌, refl,
  lookup, is_some, length, nat_eq, eq_ℤ, arith, eq_iff, eq_refl,
}
use jsoff.Value.Number.{float_eq}
use jsoff.Schema.{
  Mixin, Schema, any_schema, null_schema, bool_schema, number_schema, integer_schema, string_schema,
  any_of, all_of, not_schema, list_schema, tuple_schema, method_schema, object_schema, Schemas,
  no_more, child, schemas, Maybe, absent, present, Props, no_props, prop, props,
}
use jsoff.Schema.Equal.{
  same_bool, pointer_equal, same_mixin, values_in, equal, each_equal, sub_equal, props_in,
}

-- A map has one entry for each key.
abbrev pub Distinct {ℓ} : {V : Type ℓ} → List (String × V) → Type 0
Distinct [] = Unit
Distinct ((k, v) ∷ m) = (is_some (lookup k m) ≡ false) × Distinct m

-- The bound equals itself as a float64: it is no NaN.
abbrev pub EqualsItself : Option ℕ → Type 0
EqualsItself none = Unit
EqualsItself (some f) = float_eq f f ≡ true

abbrev mutual
  pub IsComparable : Schema → Type 0
  IsComparable (any_schema m) = Unit
  IsComparable (null_schema m) = Unit
  IsComparable (bool_schema m) = Unit
  IsComparable (number_schema m r) = EqualsItself r.maximum × EqualsItself r.minimum
  IsComparable (integer_schema m r) = Unit
  IsComparable (string_schema m longest shortest) = Unit
  IsComparable (any_of m ss) = AllComparable ss
  IsComparable (all_of m ss) = AllComparable ss
  IsComparable (not_schema m s) = IsComparable s
  IsComparable (list_schema m s fewest most) = IsComparable s
  IsComparable (tuple_schema m ss more) = AllComparable ss × SubComparable more
  IsComparable (method_schema m ss returns more) =
      AllComparable ss × SubComparable returns × SubComparable more
  IsComparable (object_schema m ps requires more) =
      Distinct (props ps) × Distinct requires × PropsComparable ps × SubComparable more

  pub AllComparable : Schemas → Type 0
  AllComparable no_more = Unit
  AllComparable (child s ss) = IsComparable s × AllComparable ss

  pub SubComparable : Maybe → Type 0
  SubComparable absent = Unit
  SubComparable (present s) = IsComparable s

  pub PropsComparable : Props → Type 0
  PropsComparable no_props = Unit
  PropsComparable (prop k s ps) = IsComparable s × PropsComparable ps

-- Every entry of the first map is found in the second.
abbrev Found {ℓ} : {V : Type ℓ} → List (String × V) → List (String × V) → Type ℓ
Found [] n = Unit
Found ((k, v) ∷ m) n = (lookup k n ≡ some v) × Found m n

module _ {ℓ} {V : Type ℓ} where
  lookup-past :
      (k j : String) (v w u : V) (m n : List (String × V))
      → is_some (lookup k ((j, w) ∷ m)) ≡ false
      → lookup j n ≡ some u
      → (lookup j ((k, v) ∷ n) ≡ some u) × (is_some (lookup k m) ≡ false)
  unfolding lookup
  lookup-past k j v w u m n h e = (ground (arith, eq_iff j k, eq_iff k j), ground arith)

  Found-past :
      (k : String) (v : V) (m n : List (String × V))
      → is_some (lookup k m) ≡ false
      → Found m n
      → Found m ((k, v) ∷ n)
  Found-past k v [] n h f = tt
  Found-past k v ((j, w) ∷ m) n h (e, f) =
      let (here, later) = lookup-past k j v w w m n h e in (here, Found-past k v m n later f)

  lookup-first : (k : String) (v : V) (m : List (String × V)) → lookup k ((k, v) ∷ m) ≡ some v
  unfolding lookup
  lookup-first k v m = rw (eq_refl k) refl

  Distinct-Found : (m : List (String × V)) → Distinct m → Found m m
  Distinct-Found [] h = tt
  Distinct-Found ((k, v) ∷ m) (fresh, h) =
      (lookup-first k v m, Found-past k v m m fresh (Distinct-Found m h))

same_bool_refl : (b : Bool) → same_bool b b ≡ true
same_bool_refl true = refl
same_bool_refl false = refl

nat_eq_refl : (n : ℕ) → nat_eq n n ≡ true
nat_eq_refl n = ground arith

eq_ℤ_refl : (n : ℤ) → eq_ℤ n n ≡ true
eq_ℤ_refl (pos n) = nat_eq_refl n
eq_ℤ_refl (negsuc n) = nat_eq_refl n

pointer_equal_refl :
    {A : Type 0} (eq : A → A → Bool) (o : Option A)
    → ((a : A) → eq a a ≡ true)
    → pointer_equal eq o o ≡ true
unfolding pointer_equal
pointer_equal_refl eq none h = refl
pointer_equal_refl eq (some a) h = h a

float_pointer_refl : (o : Option ℕ) → EqualsItself o → pointer_equal float_eq o o ≡ true
unfolding pointer_equal
float_pointer_refl none h = refl
float_pointer_refl (some f) h = h

same_mixin_refl : (m : Mixin) → same_mixin m m ≡ true
same_mixin_refl m = rw (eq_refl m.name, eq_refl m.description) refl

values_in_refl : (m n : List (String × Bool)) → Found m n → values_in m n ≡ true
unfolding values_in
values_in_refl [] n f = refl
values_in_refl ((k, b) ∷ m) n (e, f) = rw (e, same_bool_refl b, values_in_refl m n f) refl

mutual
  unfolding equal each_equal sub_equal props_in

  equal_self : (s : Schema) → IsComparable s → equal s s ≡ true
  equal_self (any_schema m) h = same_mixin_refl m
  equal_self (null_schema m) h = same_mixin_refl m
  equal_self (bool_schema m) h = same_mixin_refl m
  equal_self (number_schema m r) (h, h') = simp (
    same_mixin_refl m,
    float_pointer_refl r.maximum h,
    float_pointer_refl r.minimum h',
    pointer_equal_refl same_bool r.exclusive_maximum same_bool_refl,
    pointer_equal_refl same_bool r.exclusive_minimum same_bool_refl,
  )
  equal_self (integer_schema m r) h = simp (
    same_mixin_refl m,
    pointer_equal_refl eq_ℤ r.maximum eq_ℤ_refl,
    pointer_equal_refl eq_ℤ r.minimum eq_ℤ_refl,
    pointer_equal_refl same_bool r.exclusive_maximum same_bool_refl,
    pointer_equal_refl same_bool r.exclusive_minimum same_bool_refl,
  )
  equal_self (string_schema m longest shortest) h = simp (
    same_mixin_refl m,
    pointer_equal_refl eq_ℤ longest eq_ℤ_refl,
    pointer_equal_refl eq_ℤ shortest eq_ℤ_refl,
  )
  equal_self (any_of m ss) h =
      simp (same_mixin_refl m, nat_eq_refl (length (schemas ss)), each_self ss h)
  equal_self (all_of m ss) h =
      simp (same_mixin_refl m, nat_eq_refl (length (schemas ss)), each_self ss h)
  equal_self (not_schema m s) h = simp (same_mixin_refl m, equal_self s h)
  equal_self (list_schema m s fewest most) h = simp (
    same_mixin_refl m,
    pointer_equal_refl eq_ℤ most eq_ℤ_refl,
    pointer_equal_refl eq_ℤ fewest eq_ℤ_refl,
    equal_self s h,
  )
  equal_self (tuple_schema m ss more) (h, h') =
      simp (same_mixin_refl m, sub_self more h', nat_eq_refl (length (schemas ss)), each_self ss h)
  equal_self (method_schema m ss returns more) (h, h', h'') = simp (
    same_mixin_refl m,
    sub_self more h'',
    nat_eq_refl (length (schemas ss)),
    each_self ss h,
    sub_self returns h',
  )
  equal_self (object_schema m ps requires more) (d, d', h, h') = simp (
    same_mixin_refl m,
    nat_eq_refl (length (props ps)),
    props_self ps (props ps) (Distinct-Found (props ps) d) h,
    nat_eq_refl (length requires),
    values_in_refl requires requires (Distinct-Found requires d'),
    sub_self more h',
  )

  each_self : (ss : Schemas) → AllComparable ss → each_equal ss ss ≡ true
  each_self no_more h = refl
  each_self (child s ss) (h, h') = simp (equal_self s h, each_self ss h')

  sub_self : (o : Maybe) → SubComparable o → sub_equal o o ≡ true
  sub_self absent h = refl
  sub_self (present s) h = equal_self s h

  props_self :
      (ps : Props) (n : List (String × Schema))
      → Found (props ps) n
      → PropsComparable ps
      → props_in ps n ≡ true
  props_self no_props n f h = refl
  props_self (prop k s ps) n (e, f) (h, h') =
      rw (e, props_in, equal_self s h, props_self ps n f h') refl

-- A schema equals itself, if none of its float bounds is a NaN and no key is twice in a map of it.
pub equal_refl : (s : Schema) → IsComparable s → equal s s ≡ true
equal_refl s h = equal_self s h
