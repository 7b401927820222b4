-- ===== src/Schema/Builder/Nodes.antt =====
-- The nodes that the attributes of a node hold are its children.
use jsoff.Base.{
  ℕ, ◌≤◌, ◌<◌, String, Bool, true, false, Option, none, some, List, [], ◌∷◌, ◌≡◌, refl, inl, inr,
  lookup, arith, Option-cases,
}
use jsoff.Value.{Any, list, items}
use jsoff.Schema.Document.{Entries}
use jsoff.Schema.Convert.{
  attribute, convert_type_map, convert_each, convert_values, as_list_of, convert_attr_map, or_empty,
  convert_attr_map_of_map, convert_attr_list_of_map, ◌>>=◌,
}
use jsoff.Schema.Builder.Depth.{
  le-max, depth, depth_of, depth_all, depth_items-eq, depth-le-depth_of, Child, Child-mono,
  Child-depth, convert_type_map-Child,
}

abbrev pub AllChild : ℕ → List Entries → Type 0
AllChild k [] = Unit
AllChild k (node ∷ nodes) = Child k node × AllChild k nodes

abbrev pub ValuesChild : ℕ → List (String × Entries) → Type 0
ValuesChild k [] = Unit
ValuesChild k ((name, node) ∷ nodes) = Child k node × ValuesChild k nodes

bind-eq-some {ℓ κ} :
    {A : Type ℓ} {B : Type κ} (o : Option A) (f : A → Option B) {b : B}
    → (o >>= f) ≡ some b
    → (a : A) × (o ≡ some a) × (f a ≡ some b)
bind-eq-some none f h = cc
bind-eq-some (some a) f h = (a, refl, h)

convert_each-AllChild :
    (k : ℕ) (vs : List Any) (nodes : List Entries)
    → depth_all vs ≤ k
    → convert_each convert_type_map vs ≡ some nodes
    → AllChild k nodes
unfolding convert_each
convert_each-AllChild k [] [] below h = tt
convert_each-AllChild k [] (node ∷ nodes) below h = cc
convert_each-AllChild k (v ∷ vs) nodes below h =
    let (node, e, h1) = bind-eq-some (convert_type_map v) _ h in
    let (rest, e', h2) = bind-eq-some (convert_each convert_type_map vs) _ h1 in
    let same : node ∷ rest ≡ nodes = cc h2 in
    rw (← same) (
      Child-mono (depth v) k node (omega (arith, le-max (depth v) (depth_all vs)))
          (convert_type_map-Child v node e),
      convert_each-AllChild k vs rest (omega (arith, le-max (depth v) (depth_all vs))) e',
    )

convert_values-ValuesChild :
    (k : ℕ) (m : Entries) (nodes : List (String × Entries))
    → depth_of m ≤ k
    → convert_values m ≡ some nodes
    → ValuesChild k nodes
unfolding convert_values
convert_values-ValuesChild k [] [] below h = tt
convert_values-ValuesChild k [] (node ∷ nodes) below h = cc
convert_values-ValuesChild k ((name, v) ∷ m) nodes below h =
    let (node, e, h1) = bind-eq-some (convert_type_map v) _ h in
    let (rest, e', h2) = bind-eq-some (convert_values m) _ h1 in
    let same : (name, node) ∷ rest ≡ nodes = cc h2 in
    rw (← same) (
      Child-mono (depth v) k node (omega (arith, le-max (depth v) (depth_of m)))
          (convert_type_map-Child v node e),
      convert_values-ValuesChild k m rest (omega (arith, le-max (depth v) (depth_of m))) e',
    )

-- The value of an attribute is no deeper than the node.
abbrev Below : ℕ → Option Any → Type 0
Below k none = Unit
Below k (some v) = depth v ≤ k

lookup-Below : (node : Entries) (key : String) → Below (depth_of node) (lookup key node)
lookup-Below node key = elim (Option-cases (lookup key node)) [
  | inl e ↦ rw e tt
  | inr (v, e) ↦ rw e (depth-le-depth_of key node v e)
]

attribute-Child :
    (k : ℕ) (o : Option Any) (optional : Bool) (m : Entries)
    → 0 < k
    → Below k o
    → attribute o optional [] convert_type_map ≡ some m
    → Child k m
attribute-Child k none true m pos below h = let same : [] ≡ m = cc h in rw (← same) (inl pos)
attribute-Child k none false m pos below h = cc
attribute-Child k (some v) optional m pos below h =
    Child-mono (depth v) k m below (convert_type_map-Child v m h)

pub attr_map-Child :
    (node m : Entries) (key : String) (optional : Bool)
    → 1 ≤ depth_of node
    → convert_attr_map node key optional ≡ some m
    → Child (depth_of node) m
unfolding convert_attr_map
attr_map-Child node m key optional pos h =
    attribute-Child (depth_of node) (lookup key node) optional m (omega arith)
      (lookup-Below node key) h

attribute-AllChild :
    (k : ℕ) (o : Option Any) (nodes : List Entries)
    → Below k o
    → attribute o false [] (as_list_of convert_type_map) ≡ some nodes
    → AllChild k nodes
attribute-AllChild k (some (list xs)) nodes below h =
    convert_each-AllChild k (items xs) nodes (omega (arith, depth_items-eq xs)) h
attribute-AllChild k _ nodes below h = cc

pub attr_list_of_map-AllChild :
    (node : Entries) (key : String) (nodes : List Entries)
    → convert_attr_list_of_map node key false ≡ some nodes
    → AllChild (depth_of node) nodes
unfolding convert_attr_list_of_map
attr_list_of_map-AllChild node key nodes h =
    attribute-AllChild (depth_of node) (lookup key node) nodes (lookup-Below node key) h

or_empty-ValuesChild :
    (k : ℕ) (o : Option Entries) (nodes : List (String × Entries))
    → ((m : Entries) → o ≡ some m → Child k m)
    → or_empty o true ≡ some nodes
    → ValuesChild k nodes
or_empty-ValuesChild k none [] small h = tt
or_empty-ValuesChild k none (node ∷ nodes) small h = cc
or_empty-ValuesChild k (some m) nodes small h =
    convert_values-ValuesChild k m nodes (Child-depth k m (small m refl)) h

pub attr_map_of_map-ValuesChild :
    (node : Entries) (key : String) (nodes : List (String × Entries))
    → 1 ≤ depth_of node
    → convert_attr_map_of_map node key true ≡ some nodes
    → ValuesChild (depth_of node) nodes
unfolding convert_attr_map_of_map
attr_map_of_map-ValuesChild node key nodes pos h =
    or_empty-ValuesChild (depth_of node) (convert_attr_map node key false) nodes
      (λ m e. attr_map-Child node m key false pos e) h
