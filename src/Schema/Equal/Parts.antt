-- ===== src/Schema/Equal/Parts.antt =====
-- What the comparisons of pointers, mixins and maps in `Equal` mean for the bounds of a schema.
use jsoff.Base.{
  ℕ, ℤ, pos, negsuc, String, Bool, true, false, ◌&&◌, Option, none, some, List, [], ◌∷◌, ◌≡◌, refl,
  sym, ap, ◌↔◌, lookup, length, nat_eq, eq_iff, eq_ℤ, All, arith,
}
use mathlib.Core.Path.{subst}
use jsoff.Value.Number.{float_eq, float_le, float_lt}
use jsoff.Value.Number.Order.{lt-below, lt-above, le-below, le-above}
use jsoff.Schema.{Range}
use jsoff.Schema.Equal.{same_bool, same_flag, pointer_equal, same_range, values_in, value_map_equal}
use jsoff.Schema.Conforms.{Given, IntInRange, FloatInRange, Has}
use jsoff.Schema.Equal.Keys.{Within, same_keys}
use jsoff.Schema.Equal.Reflexive.{Distinct}

pub both : (x y : Bool) → (x && y) ≡ true → (x ≡ true) × (y ≡ true)
both true true h = (refl, refl)
both true false h = cc
both false y h = cc

pub all_true :
    (a b c d : Bool) → (a && b && c && d) ≡ true → (a ≡ true) × (b ≡ true) × (c ≡ true) × (d ≡ true)
all_true true true true true h = (refl, refl, refl, refl)
all_true a b c d h = ground arith

pub iff_of {ℓ} : {A : Type ℓ} (P : A → Type 0) (a b : A) → a ≡ b → P a ↔ P b
iff_of P a b e = (subst P e, subst P (sym e))

eq_ℤ-path : (a b : ℤ) → eq_ℤ a b ≡ true → a ≡ b
eq_ℤ-path (pos a) (pos b) h = ap pos (ground arith)
eq_ℤ-path (negsuc a) (negsuc b) h = ap negsuc (ground arith)
eq_ℤ-path (pos a) (negsuc b) h = cc
eq_ℤ-path (negsuc a) (pos b) h = cc

same_bool-path : (a b : Bool) → same_bool a b ≡ true → a ≡ b
same_bool-path true true h = refl
same_bool-path true false h = cc
same_bool-path false true h = cc
same_bool-path false false h = refl

pub pointer-path :
    {A : Type 0} (eq : A → A → Bool) (a b : Option A)
    → ((x y : A) → eq x y ≡ true → x ≡ y)
    → pointer_equal eq a b ≡ true
    → a ≡ b
unfolding pointer_equal
pointer-path eq none none sound h = refl
pointer-path eq none (some b) sound h = cc
pointer-path eq (some a) none sound h = cc
pointer-path eq (some a) (some b) sound h = ap some (sound a b h)

pub int_pointer-path : (a b : Option ℤ) → pointer_equal eq_ℤ a b ≡ true → a ≡ b
int_pointer-path a b h = pointer-path eq_ℤ a b eq_ℤ-path h

-- The four parts of the comparison of two ranges.
range_parts :
    {A : Type 0} (eq : A → A → Bool) (r t : Range A)
    → same_range eq r t ≡ true
    → (pointer_equal eq r.maximum t.maximum ≡ true)
      × (pointer_equal eq r.minimum t.minimum ≡ true)
      × (r.exclusive_maximum ≡ t.exclusive_maximum)
      × (r.exclusive_minimum ≡ t.exclusive_minimum)
range_parts eq r t h =
    let (most, least, above, below) =
      all_true (pointer_equal eq r.maximum t.maximum) (pointer_equal eq r.minimum t.minimum)
        (pointer_equal same_bool r.exclusive_maximum t.exclusive_maximum)
        (pointer_equal same_bool r.exclusive_minimum t.exclusive_minimum) h in
    (
      most,
      least,
      pointer-path same_bool r.exclusive_maximum t.exclusive_maximum same_bool-path above,
      pointer-path same_bool r.exclusive_minimum t.exclusive_minimum same_bool-path below,
    )

pub IntInRange-iff :
    (r t : Range ℤ) → same_range eq_ℤ r t ≡ true → (n : ℤ) → IntInRange r n ↔ IntInRange t n
IntInRange-iff r t h n =
    let (most, least, above, below) = range_parts eq_ℤ r t h in
    rw
      (
        int_pointer-path r.maximum t.maximum most,
        int_pointer-path r.minimum t.minimum least,
        above,
        below,
      )
      (λ g. g, λ g. g)

abbrev Above : Option Bool → ℕ → ℕ → Type 0
Above ex most f =
    (ex ≡ some true → float_le most f ≡ false) × ((ex ≡ some true → ⊥) → float_lt most f ≡ false)

abbrev Below : Option Bool → ℕ → ℕ → Type 0
Below ex least f =
    (ex ≡ some true → float_le f least ≡ false) × ((ex ≡ some true → ⊥) → float_lt f least ≡ false)

Above-same : (ex : Option Bool) (f x y : ℕ) → float_eq x y ≡ true → Above ex x f ↔ Above ex y f
Above-same ex f x y e = rw (le-below x y f e, lt-below x y f e) (λ g. g, λ g. g)

Below-same : (ex : Option Bool) (f x y : ℕ) → float_eq x y ≡ true → Below ex x f ↔ Below ex y f
Below-same ex f x y e = rw (le-above x y f e, lt-above x y f e) (λ g. g, λ g. g)

Given-same :
    (P : ℕ → Type 0) (a b : Option ℕ)
    → pointer_equal float_eq a b ≡ true
    → ((x y : ℕ) → float_eq x y ≡ true → P x ↔ P y)
    → Given P a ↔ Given P b
unfolding pointer_equal
Given-same P none none h same = (λ g. g, λ g. g)
Given-same P none (some b) h same = cc
Given-same P (some a) none h same = cc
Given-same P (some a) (some b) h same = same a b h

pub both_iff : {A B C D : Type 0} → A ↔ B → C ↔ D → (A × C) ↔ (B × D)
both_iff (f, f') (g, g') = (λ (a, c). (f a, g c), λ (b, d). (f' b, g' d))

pub FloatInRange-iff :
    (r t : Range ℕ) → same_range float_eq r t ≡ true → (f : ℕ) → FloatInRange r f ↔ FloatInRange t f
FloatInRange-iff r t h f =
    let (most, least, above, below) = range_parts float_eq r t h in
    rw (above, below)
      (both_iff
        (Given-same (λ x. Above t.exclusive_maximum x f) r.maximum t.maximum most
          (Above-same t.exclusive_maximum f))
        (Given-same (λ x. Below t.exclusive_minimum x f) r.minimum t.minimum least
          (Below-same t.exclusive_minimum f)))

pub Has-iff :
    {A : Type 0} (P Q : A → Type 0) → ((a : A) → P a ↔ Q a) → (o : Option A) → Has P o ↔ Has Q o
Has-iff P Q same none = (λ g. g, λ g. g)
Has-iff P Q same (some a) = same a

pub All-iff :
    {A : Type 0} (P Q : A → Type 0) → ((a : A) → P a ↔ Q a) → (xs : List A) → All P xs ↔ All Q xs
All-iff P Q same [] = (λ g. g, λ g. g)
All-iff P Q same (x ∷ xs) = both_iff (same x) (All-iff P Q same xs)

values_in-Within : (m n : List (String × Bool)) → values_in m n ≡ true → Within m n
unfolding values_in lookup
values_in-Within [] n h k e = refl
values_in-Within ((j, b) ∷ m) n h k e =
    let (here, later) = both (same_flag (lookup j n) b) (values_in m n) h in
    ground (arith, eq_iff j k, values_in-Within m n later k e)

-- Equal maps of flags have the same keys.
pub value_map_equal-keys :
    (m n : List (String × Bool))
    → Distinct m
    → value_map_equal m n ≡ true
    → (k : String) → (lookup k m ≡ none) ↔ (lookup k n ≡ none)
value_map_equal-keys m n d h k =
    let (size, all) = both (nat_eq (length m) (length n)) (values_in m n) h in
    let within = values_in-Within m n all in (same_keys m n d (ground arith) within k, within k)
