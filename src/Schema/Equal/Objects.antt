-- ===== src/Schema/Equal/Objects.antt =====
-- Object schemas whose properties agree name by name accept the same values.
use jsoff.Base.{
  String, Bool, ◌==◌, Option, none, some, List, ◌≡◌, inl, inr, refl, ◌↔◌, lookup, eq_iff, eq_refl,
  Bool-cases, arith,
}
use mathlib.Core.Path.{subst}
use jsoff.Value.{Any, object, fields}
use jsoff.Schema.{
  Mixin, Schema, object_schema, Maybe, absent, present, Props, no_props, prop, props,
}
use jsoff.Schema.Conforms.{Conforms, ConformsProps, ConformsOthers, Entry}
use jsoff.Schema.Equal.Reflexive.{Distinct}
use jsoff.Schema.Equal.Parts.{both_iff, All-iff}
use jsoff.Schema.Equal.Agree.{Agree, AgreeMaybe}

-- Each property of the first has one of the same name in the second that agrees with it.
abbrev pub Matches : List (String × Schema) → List (String × Schema) → Type 0
Matches m n =
    (k : String) (s : Schema)
    → lookup k m ≡ some s
    → (t : Schema) × (lookup k n ≡ some t) × Agree s t

abbrev pub SameKeys {ℓ κ} :
    {V : Type ℓ} {U : Type κ} → List (String × V) → List (String × U) → Type (ℓ ⊔ κ)
SameKeys m n = (k : String) → (lookup k m ≡ none) ↔ (lookup k n ≡ none)

Entry-iff :
    (P Q : Any → Type 0) (A B : Type 0)
    → ((d : Any) → P d ↔ Q d)
    → A ↔ B
    → (o : Option Any) → Entry P A o ↔ Entry Q B o
Entry-iff P Q A B h h' none = h'
Entry-iff P Q A B h h' (some d) = h d

-- The properties by their names.
abbrev ByName : List (String × Schema) → List (String × Bool) → List (String × Any) → Type 0
ByName m requires obj =
    (k : String) (s : Schema)
    → lookup k m ≡ some s
    → Entry (Conforms s) (lookup k requires ≡ none) (lookup k obj)

moved :
    (requires : List (String × Bool)) (obj : List (String × Any)) (j k : String) (t s : Schema)
    → j ≡ k
    → t ≡ s
    → Entry (Conforms t) (lookup j requires ≡ none) (lookup j obj)
    → Entry (Conforms s) (lookup k requires ≡ none) (lookup k obj)
moved requires obj j k t s e e' h =
    subst (λ x. Entry (Conforms s) (lookup x requires ≡ none) (lookup x obj)) e
      (subst (λ x. Entry (Conforms x) (lookup j requires ≡ none) (lookup j obj)) e' h)

by_name :
    (ps : Props) (requires : List (String × Bool)) (obj : List (String × Any))
    → ConformsProps ps requires obj
    → ByName (props ps) requires obj
unfolding lookup
by_name no_props requires obj h k s e = cc
by_name (prop j t ps) requires obj (h, hs) k s e = elim (Bool-cases (j == k)) [
  | inl same ↦ moved requires obj j k t s ((eq_iff j k).0 same) (ground arith) h
  | inr differ ↦ by_name ps requires obj hs k s (ground arith)
]

from_names :
    (ps : Props) (requires : List (String × Bool)) (obj : List (String × Any))
    → Distinct (props ps)
    → ByName (props ps) requires obj
    → ConformsProps ps requires obj
unfolding lookup
from_names no_props requires obj d h = tt
from_names (prop j t ps) requires obj (fresh, d) h = (
  h j t (rw (eq_refl j) refl),
  from_names ps requires obj d (λ k s e. h k s (ground (arith, eq_iff j k))),
)

module _ (m n : List (String × Schema)) (requires requires' : List (String × Bool))
    (obj : List (String × Any)) (pairs : Matches m n) (named : SameKeys m n)
    (required : SameKeys requires requires') where
  to_second : ByName m requires obj → ByName n requires' obj
  to_second h k t e = go (lookup k m) refl
    where
      go :
          (o : Option Schema)
          → lookup k m ≡ o
          → Entry (Conforms t) (lookup k requires' ≡ none) (lookup k obj)
      go none missing = absurd (cc ((named k).0 missing))
      go (some s) found =
          let (t', found', agree) = pairs k s found in
          let same : t' ≡ t = ground (arith, e, found') in
          subst (λ x. Entry (Conforms x) (lookup k requires' ≡ none) (lookup k obj)) same
            ((Entry-iff (Conforms s) (Conforms t') _ _ agree (required k) (lookup k obj)).0
              (h k s found))

  to_first : ByName n requires' obj → ByName m requires obj
  to_first h k s e =
      let (t, found, agree) = pairs k s e in
      (Entry-iff (Conforms s) (Conforms t) _ _ agree (required k) (lookup k obj)).1 (h k t found)

  arrow_iff :
      (k : String) (A B : Type 0) → A ↔ B → (lookup k m ≡ none → A) ↔ (lookup k n ≡ none → B)
  arrow_iff k A B (f, g) = (λ h e. f (h ((named k).1 e)), λ h e. g (h ((named k).0 e)))

  others_iff : (o p : Maybe) → AgreeMaybe o p → ConformsOthers o m obj ↔ ConformsOthers p n obj
  others_iff absent absent h = (λ g. g, λ g. g)
  others_iff (present s) (present t) h =
      All-iff _ _ (λ e. arrow_iff e.0 (Conforms s e.1) (Conforms t e.1) (h e.1)) obj
  others_iff absent (present t) h = absurd h
  others_iff (present s) absent h = absurd h

pub object_iff :
    (m n : Mixin) (ps qs : Props) (requires requires' : List (String × Bool)) (o p : Maybe)
    → Distinct (props ps)
    → Distinct (props qs)
    → Matches (props ps) (props qs)
    → SameKeys (props ps) (props qs)
    → SameKeys requires requires'
    → AgreeMaybe o p
    → Agree (object_schema m ps requires o) (object_schema n qs requires' p)
object_iff m n ps qs requires requires' o p d d' pairs named required h (object obj) =
    both_iff
      (
        λ g. from_names qs requires' (fields obj) d' (
            to_second (props ps) (props qs) requires requires' (fields obj) pairs named required
              (by_name ps requires (fields obj) g)),
        λ g. from_names ps requires (fields obj) d (
            to_first (props ps) (props qs) requires requires' (fields obj) pairs named required
              (by_name qs requires' (fields obj) g)),
      )
      (others_iff (props ps) (props qs) requires requires' (fields obj) pairs named required o p h)
object_iff m n ps qs requires requires' o p d d' pairs named required h _ =
    (λ g. absurd g, λ g. absurd g)
