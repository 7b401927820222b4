-- ===== src/Schema/Builder/Total.antt =====
-- The builder ends: the depth of a document is fuel enough.
use jsoff.Base.{
  ℕ, zero, suc, ◌≤◌, String, true, false, ◌==◌, Option, none, some, [], ◌∷◌, ◌≡◌, refl, sym, ap,
  inl, inr, lookup, is_some, arith,
}
use mathlib.Core.Path.{subst}
use jsoff.Value.{Any, str}
use jsoff.Result.{Result}
use jsoff.Schema.{Schema}
use jsoff.Schema.Document.{Entries}
use jsoff.Schema.Convert.{
  convert_attr_map, convert_attr_map_of_map, convert_attr_list_of_map, convert_attr_list_of_string,
  convert_values,
}
use jsoff.Schema.Leaf.{build_mixin}
use jsoff.Schema.Builder.{
  Paths, Built, build_node, build_type, build_typed, build_node_map, with_mixin,
  build_any_of_schema, build_all_of_schema, build_not_schema, build_list_schema,
  build_object_schema, build_method_schema, build_props, build_requires, build_additional,
}
use jsoff.Schema.Builder.Depth.{depth, depth_of, depth-le-depth_of, depth_of-pos, Child, Child-mono}
use jsoff.Schema.Builder.Nodes.{
  attr_map-Child, attr_list_of_map-AllChild, attr_map_of_map-ValuesChild,
}
use jsoff.Schema.Builder.Levels
use jsoff.Schema.Builder.Levels.{
  Ends, >>=-Ends, some-Ends, if-Ends, build_list_schema-Ends, build_any_of-Ends, build_all_of-Ends,
  build_not-Ends, build_method-Ends, build_object-Ends,
}

-- The builders of the schemas that hold others end on the node.
abbrev CompositesEnd : (Entries → Paths → Built Schema) → Entries → Paths → Type 0
CompositesEnd rec node paths =
    Ends (build_any_of_schema rec (convert_attr_list_of_map node "anyOf" false) paths)
    × Ends (build_all_of_schema rec (convert_attr_list_of_map node "allOf" false) paths)
    × Ends (build_not_schema rec (convert_attr_map node "not" false) paths)
    × Ends (build_list_schema rec node (lookup "items" node) paths)
    × Ends (build_object_schema rec node (convert_attr_map_of_map node "properties" true) paths)
    × Ends (build_method_schema rec node (convert_attr_list_of_map node "params" false) paths)

switch-Ends :
    (rec : Entries → Paths → Built Schema) (node : Entries) (paths : Paths) (kind : String)
    → CompositesEnd rec node paths
    → Ends (build_type rec kind node paths)
unfolding build_type
switch-Ends rec node paths kind (any_of, all_of, not_of, listed, objects, methods) =
    if-Ends (kind == "number") _ _ (some-Ends _) (
      if-Ends (kind == "integer") _ _ (some-Ends _) (
        if-Ends (kind == "bool") _ _ (some-Ends _) (
          if-Ends (kind == "any") _ _ (some-Ends _) (
            if-Ends (kind == "null") _ _ (some-Ends _) (
              if-Ends (kind == "string") _ _ (some-Ends _) (
                if-Ends (kind == "anyOf") _ _ any_of (
                  if-Ends (kind == "allOf") _ _ all_of (
                    if-Ends (kind == "not") _ _ not_of (
                      if-Ends (kind == "list") _ _ listed (
                        if-Ends (kind == "object") _ _ objects
                          (if-Ends (kind == "method") _ _ methods (some-Ends _))))))))))))

with_mixin-Ends :
    (node : Entries) (paths : Paths) (built : Built Schema)
    → Ends built
    → Ends (with_mixin node paths built)
with_mixin-Ends node paths built h = >>=-Ends built _ h (λ s. some-Ends (build_mixin s node paths))

-- A node with the builder of the nodes that are less deep.
module _ (rec : Entries → Paths → Built Schema) (node : Entries) (paths : Paths)
    (good : (child : Entries) (paths : Paths)
      → Child (depth_of node) child
      → Ends (rec child paths)) where
  composite-Ends : 1 ≤ depth_of node → CompositesEnd rec node paths
  composite-Ends pos = (
    build_any_of-Ends rec (depth_of node) good _ paths (attr_list_of_map-AllChild node "anyOf"),
    build_all_of-Ends rec (depth_of node) good _ paths (attr_list_of_map-AllChild node "allOf"),
    build_not-Ends rec (depth_of node) good _ paths
        (λ m e. attr_map-Child node m "not" false pos e),
    build_list_schema-Ends rec (depth_of node) good node (lookup "items" node) paths (omega arith)
        (depth-le-depth_of "items" node),
    build_object-Ends rec (depth_of node) good node _ paths (omega arith)
        (λ nodes e. attr_map_of_map-ValuesChild node "properties" nodes pos e),
    build_method-Ends rec (depth_of node) good node _ paths (omega arith) (omega arith)
        (attr_list_of_map-AllChild node "params")
        (λ m e. attr_map-Child node m "returns" true pos e),
  )

  build_type-Ends : (kind : String) → 1 ≤ depth_of node → Ends (build_type rec kind node paths)
  build_type-Ends kind pos = switch-Ends rec node paths kind (composite-Ends pos)

  build_typed-Ends : (o : Option Any) → lookup "type" node ≡ o → Ends (build_typed rec o node paths)
  unfolding build_typed
  build_typed-Ends none e = some-Ends _
  build_typed-Ends (some (str kind)) e =
      with_mixin-Ends node paths (build_type rec kind node paths)
        (build_type-Ends kind (depth_of-pos "type" node (ap is_some e)))
  build_typed-Ends (some _) e = some-Ends _

bare-CompositesEnd :
    (rec : Entries → Paths → Built Schema) (t : String) (paths : Paths)
    → CompositesEnd rec (("type", str t) ∷ []) paths
unfolding convert_attr_list_of_map convert_attr_map convert_attr_map_of_map
    convert_attr_list_of_string convert_values lookup build_any_of_schema build_all_of_schema
    build_not_schema build_list_schema build_object_schema build_method_schema build_props
    build_requires build_additional
bare-CompositesEnd rec t paths =
    (some-Ends _, some-Ends _, some-Ends _, some-Ends _, some-Ends _, some-Ends _)

-- A bare node has no attribute that is built from another node.
bare-Ends :
    (rec : Entries → Paths → Built Schema) (t : String) (paths : Paths)
    → Ends (build_typed rec (some (str t)) (("type", str t) ∷ []) paths)
unfolding build_typed
bare-Ends rec t paths =
    with_mixin-Ends (("type", str t) ∷ []) paths _
      (switch-Ends rec (("type", str t) ∷ []) paths t (bare-CompositesEnd rec t paths))

node_map-Ends :
    (fuel : ℕ) (node : Entries) (paths : Paths)
    → Child fuel node
    → Ends (build_node_map fuel node paths)
unfolding build_node_map lookup
node_map-Ends zero node paths (inl h) = absurd (omega arith)
node_map-Ends zero node paths (inr (_, h)) = absurd (omega arith)
node_map-Ends (suc fuel) node paths (inl h) =
    build_typed-Ends (build_node_map fuel) node paths
      (λ child paths' c.
        node_map-Ends fuel child paths' (Child-mono (depth_of node) fuel child (omega arith) c))
      (lookup "type" node) refl
node_map-Ends (suc fuel) node paths (inr ((t, same), h)) =
    subst (λ n. Ends (build_typed (build_node_map fuel) (lookup "type" n) n paths)) (sym same)
      (bare-Ends (build_node_map fuel) t paths)

-- The builder ends on every document, with a schema or an error: a fuel of the document's depth is
-- enough, and more.
pub build_node-Ends_of_depth :
    (data' : Any) (paths : Paths) (fuel : ℕ)
    → depth data' ≤ fuel
    → (r : Result Schema) × (build_node (build_node_map fuel) data' paths ≡ some r)
build_node-Ends_of_depth data' paths fuel h =
    ended _ (Levels.build_node-Ends (build_node_map fuel) fuel (node_map-Ends fuel) data' paths h)
  where
    ended : (b : Built Schema) → Ends b → (r : Result Schema) × (b ≡ some r)
    ended none e = absurd (e refl)
    ended (some r) e = (r, refl)
