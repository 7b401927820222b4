-- ===== src/Schema/Builder/Holds.antt =====
-- What a builder is to return: a value with a property, or an error at or below the path that it was
-- given; never a panic. Of a builder that lacks fuel nothing is said.
use jsoff.Base.{
  String, Bool, true, false, ◌==◌, none, some, List, [], ◌∷◌, ◌++◌, ◌≡◌, refl, sym, ap, ◌∙◌, eq_iff,
  lookup, store, lookup-store, is_some, if◌then◌else◌, arith, All, Bool-cases, inl, inr,
}
use mathlib.Core.List.{append_assoc, append-nil}
use jsoff.Result
use jsoff.Result.{Result, GoError, ok, err, panic, build}
use jsoff.Schema.{Schema, Props, no_props, prop, props}
use jsoff.Schema.Equal.Reflexive.{Distinct}
use jsoff.Schema.Builder.{Paths, Built, ◌>>=◌, fail, store_prop}

abbrev pub Located : Paths → GoError → Type 0
Located paths e = (info : String) × (rest : Paths) × (e ≡ build info (paths ++ rest))

abbrev pub Holds : {A : Type 0} → (A → Type 0) → Paths → Built A → Type 0
Holds P paths none = Unit
Holds P paths (some (ok a)) = P a
Holds P paths (some (err e)) = Located paths e
Holds P paths (some (panic r)) = ⊥

module _ {A B : Type 0} (P : A → Type 0) (Q : B → Type 0) (paths : Paths) where
  pub >>=-Holds :
      (m : Built A) (f : A → Built B)
      → Holds P paths m
      → ((a : A) → P a → Holds Q paths (f a))
      → Holds Q paths (m >>= f)
  >>=-Holds none f h k = tt
  >>=-Holds (some (ok a)) f h k = k a h
  >>=-Holds (some (err e)) f h k = h
  >>=-Holds (some (panic r)) f h k = h

  -- The same for a step that needs no fuel.
  pub bind-Holds :
      (r : Result A) (f : A → Result B)
      → Holds P paths (some r)
      → ((a : A) → P a → Holds Q paths (some (f a)))
      → Holds Q paths (some (jsoff.Result.◌>>=◌ r f))
  bind-Holds (ok a) f h k = k a h
  bind-Holds (err e) f h k = h
  bind-Holds (panic r) f h k = h

module _ {A : Type 0} (P : A → Type 0) (paths : Paths) where
  -- An error below a longer path is one below the path.
  pub Holds-append : (more : Paths) (b : Built A) → Holds P (paths ++ more) b → Holds P paths b
  Holds-append more none h = tt
  Holds-append more (some (ok a)) h = h
  Holds-append more (some (err e)) (info, rest, same) =
      (info, more ++ rest, same ∙ ap (build info) (append_assoc paths more rest))
  Holds-append more (some (panic r)) h = h

  pub fail-Holds : (info : String) (more : Paths) → Holds P paths (fail info (paths ++ more))
  fail-Holds info more = (info, more, refl)

  pub fail_here-Holds : (info : String) → Holds P paths (fail info paths)
  fail_here-Holds info = (info, [], ap (build info) (sym (append-nil paths)))

  pub if-Holds :
      (b : Bool) (x y : Built A)
      → (b ≡ true → Holds P paths x)
      → Holds P paths y
      → Holds P paths (if b then x else y)
  if-Holds true x y h k = h refl
  if-Holds false x y h k = k

  pub either-Holds :
      (b : Bool) (x y : Built A)
      → Holds P paths x
      → Holds P paths y
      → Holds P paths (if b then x else y)
  either-Holds b x y h k = if-Holds b x y (λ _. h) k

module _ {V : Type 0} where
  pub Distinct-store :
      (k : String) (v : V) (m : List (String × V)) → Distinct m → Distinct (store k v m)
  unfolding store lookup
  Distinct-store k v [] h = (refl, tt)
  Distinct-store k v ((j, w) ∷ m) (fresh, h) = elim (Bool-cases (j == k)) [
    | inl e ↦ rw e (ap (λ i. is_some (lookup i m)) (sym ((eq_iff j k).0 e)) ∙ fresh, h)
    | inr e ↦ rw e (ap is_some (lookup-store k j v m) ∙ rw (other e) fresh, Distinct-store k v m h)
  ]
    where
      other : (j == k) ≡ false → (k == j) ≡ false
      other e = ground (arith, eq_iff j k, eq_iff k j)

  pub All-store :
      (P : String × V → Type 0) (k : String) (v : V) (m : List (String × V))
      → P (k, v)
      → All P m
      → All P (store k v m)
  unfolding store
  All-store P k v [] p h = (p, tt)
  All-store P k v ((j, w) ∷ m) p (h, hs) = elim (Bool-cases (j == k)) [
    | inl e ↦ rw e (p, hs)
    | inr e ↦ rw e (h, All-store P k v m p hs)
  ]

pub props-store_prop :
    (k : String) (s : Schema) (ps : Props) → props (store_prop k s ps) ≡ store k s (props ps)
unfolding store
props-store_prop k s no_props = refl
props-store_prop k s (prop j t ps) = elim (Bool-cases (j == k)) [
  | inl e ↦ rw e refl
  | inr e ↦ rw e (ap (λ r. (j, t) ∷ r) (props-store_prop k s ps))
]
