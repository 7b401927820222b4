-- ===== src/Schema/Leaf/RoundTrip.antt =====
-- Building a number schema from its document.
use jsoff.Base.{
  ℕ, String, Bool, true, false, Option, none, some, List, ◌≡◌, refl, sym, ap, ap₂, ◌∙◌, ◌==◌,
  lookup, store, lookup-store, Bool-cases, inl, inr, eq_iff,
}
use jsoff.Value.{Any, bool, float64}
use jsoff.Result.{Result, ok, ◌>>=◌}
use jsoff.Schema.{Schema, Mixin, Range, number_schema, no_mixin}
use jsoff.Schema.Document.{Entries, entries, rebuild_type, put_bound, put_range, float_bound}
use jsoff.Schema.Document.Laws.{text_entry, map-tells}
use jsoff.Schema.Convert.{convert_attr_float, convert_attr_bool}
use jsoff.Schema.Leaf.{build_range, build_number_schema, build_mixin, set_name, set_description}

-- Whether a bound is exclusive is told only of a bound that is set.
abbrev FlagFits : Option ℕ → Option Bool → Type 0
FlagFits none (some b) = ⊥
FlagFits _ _ = Unit

abbrev pub RangeFits : Range ℕ → Type 0
RangeFits r = FlagFits r.maximum r.exclusive_maximum × FlagFits r.minimum r.exclusive_minimum

abbrev flag_entry : Option Bool → Option Any
flag_entry none = none
flag_entry (some b) = some (bool b)

-- The bounds are found in the entries of the document.
abbrev Shows : Range ℕ → Entries → Type 0
Shows r es =
    (lookup "minimum" es ≡ float_bound r.minimum)
    × (lookup "maximum" es ≡ float_bound r.maximum)
    × (lookup "exclusiveMinimum" es ≡ flag_entry r.exclusive_minimum)
    × (lookup "exclusiveMaximum" es ≡ flag_entry r.exclusive_maximum)

no_bounds :
    (m : Mixin)
    → Shows
        (record {
          minimum = none;
          maximum = none;
          exclusive_minimum = none;
          exclusive_maximum = none;
        })
        (rebuild_type m "number")
unfolding rebuild_type lookup store
no_bounds m = elim (Bool-cases (m.name == "")) [
  | inl e ↦ elim (Bool-cases (m.description == "")) [
    | inl e' ↦ rw (e, e', rebuild_type) (refl, refl, refl, refl)
    | inr e' ↦ rw (e, e', rebuild_type) (refl, refl, refl, refl)
  ]
  | inr e ↦ elim (Bool-cases (m.description == "")) [
    | inl e' ↦ rw (e, e', rebuild_type) (refl, refl, refl, refl)
    | inr e' ↦ rw (e, e', rebuild_type) (refl, refl, refl, refl)
  ]
]

lookup-put_bound :
    (j k ex : String) (o : Option Any) (b : Option Bool) (es : Entries)
    → (k == j) ≡ false
    → (ex == j) ≡ false
    → lookup j (put_bound k ex o b es) ≡ lookup j es
lookup-put_bound j k ex none b es h h' = refl
lookup-put_bound j k ex (some v) none es h h' = lookup-store k j v es ∙ rw h refl
lookup-put_bound j k ex (some v) (some b) es h h' =
    lookup-store ex j (bool b) (store k v es) ∙ rw h' (lookup-store k j v es ∙ rw h refl)

-- A bound and its flag that were put into entries without them.
put_bound-shows :
    (k ex : String) (o : Option ℕ) (b : Option Bool) (es : Entries)
    → (k == k) ≡ true
    → (ex == ex) ≡ true
    → (k == ex) ≡ false
    → (ex == k) ≡ false
    → FlagFits o b
    → lookup k es ≡ none
    → lookup ex es ≡ none
    → (lookup k (put_bound k ex (float_bound o) b es) ≡ float_bound o)
      × (lookup ex (put_bound k ex (float_bound o) b es) ≡ flag_entry b)
put_bound-shows k ex none none es i i' d d' fit n n' = (n, n')
put_bound-shows k ex none (some b) es i i' d d' fit n n' = absurd fit
put_bound-shows k ex (some v) none es i i' d d' fit n n' =
    (lookup-store k k (float64 v) es ∙ rw i refl, lookup-store k ex (float64 v) es ∙ rw d n')
put_bound-shows k ex (some v) (some b) es i i' d d' fit n n' = (
  lookup-store ex k (bool b) (store k (float64 v) es)
      ∙ rw d' (lookup-store k k (float64 v) es ∙ rw i refl),
  lookup-store ex ex (bool b) (store k (float64 v) es) ∙ rw i' refl,
)

number-Shows :
    (m : Mixin) (r : Range ℕ)
    → RangeFits r
    → Shows r (put_range float_bound r (rebuild_type m "number"))
number-Shows m r (fit, fit') =
    let base = rebuild_type m "number" in
    let upper =
      put_bound "maximum" "exclusiveMaximum" (float_bound r.maximum) r.exclusive_maximum base in
    let (none_min, none_max, none_exmin, none_exmax) = no_bounds m in
    let past =
      λ (j : String) (h : ("maximum" == j) ≡ false) (h' : ("exclusiveMaximum" == j) ≡ false).
        lookup-put_bound j "maximum" "exclusiveMaximum" (float_bound r.maximum) r.exclusive_maximum
          base h h' in
    let (max, exmax) =
      put_bound-shows "maximum" "exclusiveMaximum" r.maximum r.exclusive_maximum base refl refl refl
        refl fit none_max none_exmax in
    let (min, exmin) =
      put_bound-shows "minimum" "exclusiveMinimum" r.minimum r.exclusive_minimum upper refl refl
        refl refl fit' (past "minimum" refl refl ∙ none_min)
        (past "exclusiveMinimum" refl refl ∙ none_exmin) in
    (
      min,
      lookup-put_bound "maximum" "minimum" "exclusiveMinimum" (float_bound r.minimum)
            r.exclusive_minimum upper refl refl
          ∙ max,
      exmin,
      lookup-put_bound "exclusiveMaximum" "minimum" "exclusiveMinimum" (float_bound r.minimum)
            r.exclusive_minimum upper refl refl
          ∙ exmax,
    )

as_float_bound :
    (node : Entries) (k : String) (o : Option ℕ)
    → lookup k node ≡ float_bound o
    → convert_attr_float node k false ≡ o
unfolding convert_attr_float
as_float_bound node k none h = rw h refl
as_float_bound node k (some f) h = rw h refl

as_flag :
    (node : Entries) (k : String) (o : Option Bool)
    → lookup k node ≡ flag_entry o
    → convert_attr_bool node k false ≡ o
unfolding convert_attr_bool
as_flag node k none h = rw h refl
as_flag node k (some b) h = rw h refl

named :
    (m : Mixin) (r : Range ℕ) (paths : List String)
    → (set_name (text_entry m.name) (number_schema no_mixin r) paths >>= λ s.
        set_description (text_entry m.description) s paths)
      ≡ ok (number_schema m r)
named m r paths = elim (Bool-cases (m.name == "")) [
  | inl e ↦ elim (Bool-cases (m.description == "")) [
    | inl e' ↦ rw (e, e') (same (sym (empty m.name e)) (sym (empty m.description e')))
    | inr e' ↦ rw (e, e') (same (sym (empty m.name e)) refl)
  ]
  | inr e ↦ elim (Bool-cases (m.description == "")) [
    | inl e' ↦ rw (e, e') (same refl (sym (empty m.description e')))
    | inr e' ↦ rw (e, e') refl
  ]
]
  where
    empty : (t : String) → (t == "") ≡ true → t ≡ ""
    empty t h = (eq_iff t "").0 h

    same :
        {n n' d d' : String}
        → n ≡ n'
        → d ≡ d'
        → Path
            (Result Schema)
            (ok (number_schema (record { name = n; description = d }) r))
            (ok (number_schema (record { name = n'; description = d' }) r))
    same = ap₂ (λ n d. ok (number_schema (record { name = n; description = d }) r))

build_range-entries :
    (r : Range ℕ) (es : Entries) → Shows r es → build_range convert_attr_float es ≡ r
build_range-entries r es (min, max, exmin, exmax) =
    rw
      (
        as_float_bound es "minimum" r.minimum min,
        as_float_bound es "maximum" r.maximum max,
        as_flag es "exclusiveMinimum" r.exclusive_minimum exmin,
        as_flag es "exclusiveMaximum" r.exclusive_maximum exmax,
      )
      refl

-- Building a number schema from the entries of its document, with its name and description, gives
-- the schema back, if no bound that is missing is said to be exclusive.
pub build_number_schema-entries :
    (m : Mixin) (r : Range ℕ) (paths : List String)
    → RangeFits r
    → build_mixin
        (build_number_schema (entries (number_schema m r)))
        (entries (number_schema m r))
        paths
      ≡ ok (number_schema m r)
unfolding build_mixin build_number_schema entries
build_number_schema-entries m r paths fit =
    let es = put_range float_bound r (rebuild_type m "number") in
    let (_, told_name, told_description) = map-tells (number_schema m r) in
    ap
      (λ q. set_name (lookup "name" es) (number_schema no_mixin q) paths >>= λ s.
        set_description (lookup "description" es) s paths)
      (build_range-entries r es (number-Shows m r fit))
    ∙ ap₂ (λ o o'. set_name o (number_schema no_mixin r) paths >>= λ s. set_description o' s paths)
        told_name told_description
    ∙ named m r paths
