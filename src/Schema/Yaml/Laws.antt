-- ===== src/Schema/Yaml/Laws.antt =====
-- When the maps of a YAML document can be fixed, and what they are fixed to.
use jsoff.Base.{ℕ, suc, String, List, [], ◌∷◌, ◌++◌, ◌≡◌, refl, ap, ◌⊎◌, inl, inr}
use mathlib.Core.List.{append_assoc}
use jsoff.Value.{Any, list, object, to_items, to_fields}
use jsoff.Result.{Result, ok, err, non_string_map, ◌>>=◌}
use jsoff.Schema.Scan.{index, dotted}
use jsoff.Schema.Builder.{Paths, under}
use jsoff.Schema.Yaml.{
  text, printed, Yaml, plain, sequence, mapping, Elements, no_elements, element, Pairs, no_pairs,
  pair, fix_yaml_maps, fix_elements, fix_pairs,
}

-- Every key of every map is a text.
abbrev mutual
  pub HasTextKeys : Yaml → Type 0
  HasTextKeys (plain v) = Unit
  HasTextKeys (sequence xs) = ElementsHaveTextKeys xs
  HasTextKeys (mapping m) = PairsHaveTextKeys m

  pub ElementsHaveTextKeys : Elements → Type 0
  ElementsHaveTextKeys no_elements = Unit
  ElementsHaveTextKeys (element y ys) = HasTextKeys y × ElementsHaveTextKeys ys

  pub PairsHaveTextKeys : Pairs → Type 0
  PairsHaveTextKeys no_pairs = Unit
  PairsHaveTextKeys (pair (text k) y m) = HasTextKeys y × PairsHaveTextKeys m
  PairsHaveTextKeys (pair (printed k) y m) = ⊥

-- The document with its texts for keys, read off with no path; a pair with another key is left out.
abbrev mutual
  pub erased : Yaml → Any
  erased (plain v) = v
  erased (sequence xs) = list (to_items (erased_elements xs))
  erased (mapping m) = object (to_fields (erased_pairs m))

  pub erased_elements : Elements → List Any
  erased_elements no_elements = []
  erased_elements (element y ys) = erased y ∷ erased_elements ys

  pub erased_pairs : Pairs → List (String × Any)
  erased_pairs no_pairs = []
  erased_pairs (pair (text k) y m) = (k, erased y) ∷ erased_pairs m
  erased_pairs (pair (printed k) y m) = erased_pairs m

-- An error that names a path below the given one.
abbrev pub NamesBelow {ℓ} : {A : Type ℓ} → Paths → Result A → Type ℓ
NamesBelow {A} paths r = (rest : Paths) × (r ≡ err (non_string_map (paths ++ rest)))

below_under {ℓ κ} :
    {A : Type ℓ} {B : Type κ} (paths : Paths) (segment : String) (r : Result A) (f : A → Result B)
    → NamesBelow (under paths segment) r
    → NamesBelow paths (r >>= f)
below_under paths segment r f (rest, e) = (
  segment ∷ rest,
  rw (e, ◌>>=◌) (ap (λ p. err (non_string_map p)) (append_assoc paths (segment ∷ []) rest)),
)

mutual
  unfolding fix_yaml_maps

  fix_cases :
      (y : Yaml) (paths : Paths)
      → (HasTextKeys y × (fix_yaml_maps y paths ≡ ok (erased y)))
        ⊎ ((¬ HasTextKeys y) × NamesBelow paths (fix_yaml_maps y paths))
  fix_cases (plain v) paths = inl (tt, refl)
  fix_cases (sequence xs) paths = elim (elements_cases xs 0 paths) [
    | inl (h, e) ↦ inl (h, rw (e, ◌>>=◌) refl)
    | inr (h, (rest, e)) ↦ inr (h, (rest, rw (e, ◌>>=◌) refl))
  ]
  fix_cases (mapping m) paths = elim (pairs_cases m paths) [
    | inl (h, e) ↦ inl (h, rw (e, ◌>>=◌) refl)
    | inr (h, (rest, e)) ↦ inr (h, (rest, rw (e, ◌>>=◌) refl))
  ]

  elements_cases :
      (xs : Elements) (i : ℕ) (paths : Paths)
      → (ElementsHaveTextKeys xs × (fix_elements xs i paths ≡ ok (erased_elements xs)))
        ⊎ ((¬ ElementsHaveTextKeys xs) × NamesBelow paths (fix_elements xs i paths))
  elements_cases no_elements i paths = inl (tt, refl)
  elements_cases (element y ys) i paths = elim (fix_cases y (under paths (index i))) [
    | inr (h, below) ↦ inr (λ t. h t.0, below_under paths (index i) _ _ below)
    | inl (h, e) ↦ elim (elements_cases ys (suc i) paths) [
      | inl (h', e') ↦ inl ((h, h'), rw (e, ◌>>=◌) (rw (e', ◌>>=◌) refl))
      | inr (h', (rest, e')) ↦ inr (λ t. h' t.1, (rest, rw (e, ◌>>=◌) (rw (e', ◌>>=◌) refl)))
    ]
  ]

  pairs_cases :
      (m : Pairs) (paths : Paths)
      → (PairsHaveTextKeys m × (fix_pairs m paths ≡ ok (erased_pairs m)))
        ⊎ ((¬ PairsHaveTextKeys m) × NamesBelow paths (fix_pairs m paths))
  pairs_cases no_pairs paths = inl (tt, refl)
  pairs_cases (pair (printed k) y m) paths = inr (λ t. t, (dotted k ∷ [], refl))
  pairs_cases (pair (text k) y m) paths = elim (fix_cases y (under paths (dotted k))) [
    | inr (h, below) ↦ inr (λ t. h t.0, below_under paths (dotted k) _ _ below)
    | inl (h, e) ↦ elim (pairs_cases m paths) [
      | inl (h', e') ↦ inl ((h, h'), rw (e, ◌>>=◌) (rw (e', ◌>>=◌) refl))
      | inr (h', (rest, e')) ↦ inr (λ t. h' t.1, (rest, rw (e, ◌>>=◌) (rw (e', ◌>>=◌) refl)))
    ]
  ]
