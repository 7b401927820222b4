-- ===== src/Schema/Builder/Levels.antt =====
-- The builders of one level end, if the builder of the level below does.
use jsoff.Base.{
  ℕ, suc, ◌≤◌, ◌<◌, String, Bool, true, false, Option, none, some, List, [], ◌∷◌, ◌≡◌, ◌≢◌, refl,
  inl, inr, lookup, is_some, if◌then◌else◌, arith, Option-cases,
}
use jsoff.Value.{Any, list, items}
use jsoff.Result.{Result, ok, err, panic}
use jsoff.Schema.{Schema, Props, props}
use jsoff.Schema.Scan.{index}
use jsoff.Schema.Document.{Entries}
use jsoff.Schema.Convert.{convert_type_map, convert_attr_map, convert_attr_list_of_string}
use jsoff.Schema.Builder.{
  Paths, Built, ◌>>=◌, under, or_any, build_node, build_additional, build_items, build_list_schema,
  build_each, build_any_of_schema, build_all_of_schema, build_not_schema, build_returns,
  build_method_schema, build_props, build_requires, required, build_object_schema, store_prop,
}
use jsoff.Schema.Builder.Depth.{
  le-max, depth, depth_of, depth_all, depth_items-eq, depth-le-depth_of, Child, Child-mono,
  or_any-Child, convert_type_map-Child,
}
use jsoff.Schema.Builder.Nodes.{AllChild, ValuesChild}

-- The builder comes to an end: with a schema or an error.
abbrev pub Ends : {A : Type 0} → Built A → Type 0
Ends b = b ≢ none

pub >>=-Ends :
    {A B : Type 0} (m : Built A) (f : A → Built B)
    → Ends m
    → ((a : A) → Ends (f a))
    → Ends (m >>= f)
>>=-Ends none f h k = absurd (h refl)
>>=-Ends (some (ok a)) f h k = k a
>>=-Ends (some (err e)) f h k = λ e'. cc
>>=-Ends (some (panic r)) f h k = λ e'. cc

pub some-Ends : {A : Type 0} (r : Result A) → Ends (some r)
some-Ends r e = cc

pub if-Ends : {A : Type 0} (b : Bool) (x y : Built A) → Ends x → Ends y → Ends (if b then x else y)
if-Ends true x y h k = h
if-Ends false x y h k = k

build_requires-Ends :
    (found : Props) (names : List String) (requires : List (String × Bool)) (paths : Paths)
    → Ends (build_requires found names requires paths)
unfolding build_requires
build_requires-Ends found [] requires paths = some-Ends _
build_requires-Ends found (name ∷ names) requires paths =
    if-Ends (is_some (lookup name (props found))) _ _ (build_requires-Ends found names _ paths)
      (some-Ends _)

required-Ends :
    (found : Props) (o : Option (List String)) (paths : Paths) → Ends (required found o paths)
required-Ends found none paths = some-Ends _
required-Ends found (some names) paths = build_requires-Ends found names [] paths

-- The builders of a node, where the builder of its children ends on each of them.
module _ (rec : Entries → Paths → Built Schema) (k : ℕ)
    (good : (node : Entries) (paths : Paths) → Child k node → Ends (rec node paths)) where
  pub build_node-Ends : (v : Any) (paths : Paths) → depth v ≤ k → Ends (build_node rec v paths)
  unfolding build_node
  build_node-Ends v paths h = elim (Option-cases (convert_type_map v)) [
    | inl e ↦ rw (e, build_node) (some-Ends _)
    | inr (m, e) ↦
        rw (e, build_node)
          (good m paths (Child-mono (depth v) k m h (convert_type_map-Child v m e)))
  ]

  pub build_additional-Ends :
      (node : Entries) (key : String) (paths : Paths)
      → depth_of node ≤ k
      → Ends (build_additional rec (lookup key node) paths)
  unfolding build_additional
  build_additional-Ends node key paths h = elim (Option-cases (lookup key node)) [
    | inl e ↦ rw (e, build_additional) (some-Ends _)
    | inr (v, e) ↦
        rw (e, build_additional)
          (>>=-Ends (build_node rec v paths) _
            (build_node-Ends v paths (omega (arith, depth-le-depth_of key node v e)))
            (λ s. some-Ends _))
  ]

  pub build_items-Ends :
      (i : ℕ) (vs : List Any) (paths : Paths) → depth_all vs ≤ k → Ends (build_items rec i vs paths)
  unfolding build_items
  build_items-Ends i [] paths h = some-Ends _
  build_items-Ends i (v ∷ vs) paths h =
      >>=-Ends (build_node rec v (under paths (index i))) _
        (build_node-Ends v (under paths (index i)) (omega (arith, le-max (depth v) (depth_all vs))))
        (λ s.
          >>=-Ends (build_items rec (suc i) vs paths) _
            (build_items-Ends (suc i) vs paths (omega (arith, le-max (depth v) (depth_all vs))))
            (λ rest. some-Ends _))

  pub build_list_schema-Ends :
      (node : Entries) (o : Option Any) (paths : Paths)
      → depth_of node ≤ k
      → ((v : Any) → o ≡ some v → depth v ≤ k)
      → Ends (build_list_schema rec node o paths)
  unfolding build_list_schema
  build_list_schema-Ends node none paths h below = some-Ends _
  build_list_schema-Ends node (some (list xs)) paths h below =
      >>=-Ends (build_items rec 0 (items xs) paths) _
        (build_items-Ends 0 (items xs) paths
          (omega (arith, depth_items-eq xs, below (list xs) refl)))
        (λ children.
          >>=-Ends _ _
            (build_additional-Ends node "additionalItems" (under paths ".additionalItems") h)
            (λ more. some-Ends _))
  build_list_schema-Ends node (some v) paths h below =
      >>=-Ends (build_node rec v paths) _ (build_node-Ends v paths (below v refl))
        (λ s. some-Ends _)

  pub build_each-Ends :
      (key : String) (i : ℕ) (nodes : List Entries) (paths : Paths)
      → AllChild k nodes
      → Ends (build_each rec key i nodes paths)
  unfolding build_each
  build_each-Ends key i [] paths h = some-Ends _
  build_each-Ends key i (node ∷ nodes) paths (h, h') = >>=-Ends (rec node _) _ (good node _ h) (λ s.
      >>=-Ends (build_each rec key (suc i) nodes paths) _
        (build_each-Ends key (suc i) nodes paths h') (λ rest. some-Ends _))

  pub build_props-Ends :
      (nodes : List (String × Entries)) (found : Props) (paths : Paths)
      → ValuesChild k nodes
      → Ends (build_props rec nodes found paths)
  unfolding build_props
  build_props-Ends [] found paths h = some-Ends _
  build_props-Ends ((name, node) ∷ nodes) found paths (h, h') =
      >>=-Ends (rec node _) _ (good node _ h)
        (λ s. build_props-Ends nodes (store_prop name s found) paths h')

  pub build_any_of-Ends :
      (o : Option (List Entries)) (paths : Paths)
      → ((nodes : List Entries) → o ≡ some nodes → AllChild k nodes)
      → Ends (build_any_of_schema rec o paths)
  unfolding build_any_of_schema
  build_any_of-Ends none paths h = some-Ends _
  build_any_of-Ends (some nodes) paths h =
      >>=-Ends _ _ (build_each-Ends ".anyOf" 0 nodes paths (h nodes refl)) (λ ss. some-Ends _)

  pub build_all_of-Ends :
      (o : Option (List Entries)) (paths : Paths)
      → ((nodes : List Entries) → o ≡ some nodes → AllChild k nodes)
      → Ends (build_all_of_schema rec o paths)
  unfolding build_all_of_schema
  build_all_of-Ends none paths h = some-Ends _
  build_all_of-Ends (some nodes) paths h =
      >>=-Ends _ _ (build_each-Ends ".allOf" 0 nodes paths (h nodes refl)) (λ ss. some-Ends _)

  pub build_not-Ends :
      (o : Option Entries) (paths : Paths)
      → ((node : Entries) → o ≡ some node → Child k node)
      → Ends (build_not_schema rec o paths)
  unfolding build_not_schema
  build_not-Ends none paths h = some-Ends _
  build_not-Ends (some node) paths h =
      >>=-Ends (rec node _) _ (good node _ (h node refl)) (λ s. some-Ends _)

  pub build_returns-Ends :
      (o : Option Entries) (paths : Paths)
      → 0 < k
      → ((node : Entries) → o ≡ some node → Child k node)
      → Ends (build_returns rec o paths)
  unfolding build_returns
  build_returns-Ends none paths pos h = some-Ends _
  build_returns-Ends (some node) paths pos h =
      >>=-Ends (rec (or_any node) _) _
        (good (or_any node) _ (or_any-Child k node pos (h node refl))) (λ s. some-Ends _)

  pub build_method-Ends :
      (node : Entries) (o : Option (List Entries)) (paths : Paths)
      → 0 < k
      → depth_of node ≤ k
      → ((nodes : List Entries) → o ≡ some nodes → AllChild k nodes)
      → ((m : Entries) → convert_attr_map node "returns" true ≡ some m → Child k m)
      → Ends (build_method_schema rec node o paths)
  unfolding build_method_schema
  build_method-Ends node none paths pos h ps r = some-Ends _
  build_method-Ends node (some nodes) paths pos h ps r =
      >>=-Ends _ _ (build_each-Ends ".params" 0 nodes paths (ps nodes refl)) (λ params.
        >>=-Ends _ _
          (build_additional-Ends node "additionalParams" (under paths ".additionalParams") h)
          (λ more.
            >>=-Ends _ _ (build_returns-Ends (convert_attr_map node "returns" true) paths pos r)
              (λ returns. some-Ends _)))

  pub build_object-Ends :
      (node : Entries) (o : Option (List (String × Entries))) (paths : Paths)
      → depth_of node ≤ k
      → ((nodes : List (String × Entries)) → o ≡ some nodes → ValuesChild k nodes)
      → Ends (build_object_schema rec node o paths)
  unfolding build_object_schema
  build_object-Ends node none paths h ps = some-Ends _
  build_object-Ends node (some nodes) paths h ps =
      >>=-Ends _ _ (build_props-Ends nodes _ paths (ps nodes refl)) (λ found.
        >>=-Ends _ _ (required-Ends found (convert_attr_list_of_string node "requires" true) paths)
          (λ requires.
            >>=-Ends _ _
              (build_additional-Ends node "additionalProperties"
                (under paths ".additionalProperties") h)
              (λ more. some-Ends _)))
