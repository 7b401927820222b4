-- ===== src/Schema/Builder/Depth.antt =====
-- How deep a document is nested, and that the nodes below a node are less deep.
use jsoff.Base.{
  ℕ, suc, ◌≤◌, ◌<◌, String, true, false, ◌==◌, Option, none, some, List, [], ◌∷◌, ◌≡◌, refl, sym,
  ap, ◌∙◌, ◌⊎◌, inl, inr, lookup, store, is_some, leb, if◌then◌else◌, arith, Bool-cases,
  Option-cases,
}
use jsoff.Value.{Any, str, list, object, Items, end, item, Fields, none_left, field, items, fields}
use jsoff.Schema.Document.{Entries}
use jsoff.Schema.Convert.{
  guess_type, with_type, typed, convert_type_map, string_in_list, simple_types,
}
use jsoff.Schema.Builder.{or_any}

unfoldable pub max : ℕ → ℕ → ℕ
max a b = if leb a b then b else a

pub le-max : (a b : ℕ) → (a ≤ max a b) × (b ≤ max a b)
unfolding max
le-max a b = ground arith

pub max-le : (a b c : ℕ) → a ≤ c → b ≤ c → max a b ≤ c
unfolding max
max-le a b c h h' = ground arith

abbrev mutual
  pub depth : Any → ℕ
  depth (list xs) = suc (depth_items xs)
  depth (object m) = suc (depth_fields m)
  depth _ = 1

  pub depth_items : Items → ℕ
  depth_items end = 0
  depth_items (item v vs) = max (depth v) (depth_items vs)

  pub depth_fields : Fields → ℕ
  depth_fields none_left = 0
  depth_fields (field k v m) = max (depth v) (depth_fields m)

abbrev pub depth_of : Entries → ℕ
depth_of [] = 0
depth_of ((k, v) ∷ m) = max (depth v) (depth_of m)

abbrev pub depth_all : List Any → ℕ
depth_all [] = 0
depth_all (v ∷ vs) = max (depth v) (depth_all vs)

pub depth_fields-eq : (m : Fields) → depth_fields m ≡ depth_of (fields m)
depth_fields-eq none_left = refl
depth_fields-eq (field k v m) = ap (max (depth v)) (depth_fields-eq m)

pub depth_items-eq : (xs : Items) → depth_items xs ≡ depth_all (items xs)
depth_items-eq end = refl
depth_items-eq (item v vs) = ap (max (depth v)) (depth_items-eq vs)

pub depth-pos : (v : Any) → 1 ≤ depth v
depth-pos (list xs) = omega arith
depth-pos (object m) = omega arith
depth-pos _ = omega arith

pub depth-le-depth_of :
    (k : String) (m : Entries) (v : Any) → lookup k m ≡ some v → depth v ≤ depth_of m
unfolding lookup
depth-le-depth_of k [] v h = cc
depth-le-depth_of k ((j, w) ∷ m) v h = elim (Bool-cases (j == k)) [
  | inl e ↦ let same : w ≡ v = cc (rw e at h) in rw (← same) ((le-max (depth w) (depth_of m)).0)
  | inr e ↦ omega (arith, le-max (depth w) (depth_of m), depth-le-depth_of k m v (rw e at h))
]

pub depth_of-pos : (k : String) (m : Entries) → is_some (lookup k m) ≡ true → 1 ≤ depth_of m
depth_of-pos k m h = elim (Option-cases (lookup k m)) [
  | inl e ↦ absurd (cc (sym h ∙ ap is_some e))
  | inr (v, e) ↦ omega (arith, depth-pos v, depth-le-depth_of k m v e)
]

-- Writing a text below a key makes a map that is not empty no deeper.
depth_of-store : (k t : String) (m : Entries) → depth_of (store k (str t) m) ≤ max 1 (depth_of m)
unfolding store
depth_of-store k t [] = omega arith
depth_of-store k t ((j, v) ∷ m) = elim (Bool-cases (j == k)) [
  | inl e ↦ rw e (
      max-le 1 (depth_of m) _ (omega (arith, le-max 1 (max (depth v) (depth_of m))))
        (omega (arith, le-max 1 (max (depth v) (depth_of m)), le-max (depth v) (depth_of m))))
  | inr e ↦ rw e (
      max-le (depth v) (depth_of (store k (str t) m)) _
        (omega (arith, le-max 1 (max (depth v) (depth_of m)), le-max (depth v) (depth_of m)))
        (omega (
          arith,
          depth_of-store k t m,
          max-le 1 (depth_of m) (max 1 (max (depth v) (depth_of m)))
              (omega (arith, le-max 1 (max (depth v) (depth_of m))))
              (omega (arith, le-max 1 (max (depth v) (depth_of m)), le-max (depth v) (depth_of m))),
        )))
]

depth_of-store-le :
    (k t : String) (m : Entries) → 1 ≤ depth_of m → depth_of (store k (str t) m) ≤ depth_of m
depth_of-store-le k t m h =
    omega (arith, depth_of-store k t m, max-le 1 (depth_of m) (depth_of m) h (omega arith))

depth_of-guessed : (m : Entries) (t : String) → guess_type m ≡ some t → 1 ≤ depth_of m
unfolding guess_type
depth_of-guessed m t h = ground (
  arith,
  depth_of-pos "params" m,
  depth_of-pos "properties" m,
  depth_of-pos "anyOf" m,
  depth_of-pos "allOf" m,
  depth_of-pos "not" m,
)

depth_of-with_type :
    (m : Entries) (g : Option String) → guess_type m ≡ g → depth_of (with_type g m) ≤ depth_of m
depth_of-with_type m none e = omega arith
depth_of-with_type m (some t) e = depth_of-store-le "type" t m (depth_of-guessed m t e)

depth_of-typed : (m : Entries) → depth_of (typed m) ≤ depth_of m
depth_of-typed m = elim (Bool-cases (is_some (lookup "type" m))) [
  | inl e ↦ rw e (omega arith)
  | inr e ↦ rw e (depth_of-with_type m (guess_type m) refl)
]

-- A node that names a type and nothing else.
abbrev pub IsBare : Entries → Type 0
IsBare node = (t : String) × (node ≡ ("type", str t) ∷ [])

-- A node that is less than `k` deep, or bare.
abbrev pub Child : ℕ → Entries → Type 0
Child k node = (depth_of node < k) ⊎ (IsBare node × (0 < k))

pub Child-mono : (j k : ℕ) (node : Entries) → j ≤ k → Child j node → Child k node
Child-mono j k node h (inl less) = inl (omega arith)
Child-mono j k node h (inr (bare, pos)) = inr (bare, omega arith)

pub convert_type_map-Child :
    (v : Any) (node : Entries) → convert_type_map v ≡ some node → Child (depth v) node
unfolding convert_type_map
convert_type_map-Child (str t) node h = elim (Bool-cases (string_in_list t simple_types)) [
  | inl e ↦ inr ((t, sym (cc (rw e at h))), omega arith)
  | inr e ↦ cc (rw (e, convert_type_map) at h)
]
convert_type_map-Child (object m) node h =
    let same : typed (fields m) ≡ node = ground arith in
    inl (rw (← same) (omega (arith, depth_of-typed (fields m), depth_fields-eq m)))
convert_type_map-Child _ node h = cc

pub Child-depth : (k : ℕ) (node : Entries) → Child k node → depth_of node ≤ k
unfolding max
Child-depth k node (inl less) = omega arith
Child-depth k node (inr ((t, e), pos)) = rw e (omega arith)

bare-has_type :
    (m : Entries) (t : String) → m ≡ ("type", str t) ∷ [] → is_some (lookup "type" m) ≡ true
unfolding lookup
bare-has_type m t same = ap (λ n. is_some (lookup "type" n)) same

or_any_missing :
    (k : ℕ) (m : Entries)
    → is_some (lookup "type" m) ≡ false
    → 0 < k
    → Child k m
    → Child k (store "type" (str "any") m)
unfolding store
or_any_missing k [] e pos h = inr (("any", refl), pos)
or_any_missing k (entry ∷ m) e pos (inl less) = inl (
    omega (
      arith,
      depth_of-store-le "type" "any" (entry ∷ m)
          (omega (arith, le-max (depth entry.1) (depth_of m), depth-pos entry.1)),
    ))
or_any_missing k (entry ∷ m) e pos (inr ((t, same), _)) = cc (bare-has_type (entry ∷ m) t same)

pub or_any-Child : (k : ℕ) (m : Entries) → 0 < k → Child k m → Child k (or_any m)
or_any-Child k m pos h = elim (Bool-cases (is_some (lookup "type" m))) [
  | inl e ↦ rw e h
  | inr e ↦ rw e (or_any_missing k m e pos h)
]
