-- ===== src/Schema/Builder/Invariant.antt =====
-- What is built is well formed, and an error names a path at or below the node.
use jsoff.Base.{
  ℕ, zero, suc, String, true, ◌==◌, Option, none, some, List, [], ◌∷◌, ◌++◌, lookup, Option-cases,
  inl, inr,
}
use jsoff.Value.{Any, str, list, items}
use jsoff.Schema.{Schema, Props, no_props}
use jsoff.Schema.Scan.{index, dotted}
use jsoff.Schema.Document.{Entries}
use jsoff.Schema.Convert.{convert_type_map, convert_attr_map, convert_attr_list_of_string}
use jsoff.Schema.Leaf.{build_number_schema, build_integer_schema, build_string_schema}
use jsoff.Schema.Builder.{
  Paths, Built, under, or_any, build_node, build_additional, build_items, build_list_schema,
  build_each, build_any_of_schema, build_all_of_schema, build_not_schema, build_returns,
  build_method_schema, build_props, required, build_object_schema, build_type, build_typed,
  build_node_map, store_prop,
}
use jsoff.Schema.Builder.Holds.{Holds, >>=-Holds, Holds-append, fail_here-Holds, either-Holds}
use jsoff.Schema.Builder.WellFormed.{
  IsBuilt, SubBuilt, ListBuilt, MapBuilt, non_negative-NotNegative, MapBuilt-store_prop,
  build_mixin-Holds, RequiresBuilt, required-Holds,
}

-- The builders of a node, where the builder of its children holds what it is to hold.
module _ (rec : Entries → Paths → Built Schema)
    (good : (node : Entries) (paths : Paths) → Holds IsBuilt paths (rec node paths)) where
  pub build_node-Holds : (v : Any) (paths : Paths) → Holds IsBuilt paths (build_node rec v paths)
  unfolding build_node
  build_node-Holds v paths = elim (Option-cases (convert_type_map v)) [
    | inl e ↦ rw (e, build_node) (fail_here-Holds IsBuilt paths "data is not an object")
    | inr (m, e) ↦ rw (e, build_node) (good m paths)
  ]

  -- The same at a longer path.
  child-Holds :
      (node : Entries) (paths more : Paths) → Holds IsBuilt paths (rec node (paths ++ more))
  child-Holds node paths more =
      Holds-append IsBuilt paths more (rec node (paths ++ more)) (good node (paths ++ more))

  below-Holds :
      (v : Any) (paths more : Paths) → Holds IsBuilt paths (build_node rec v (paths ++ more))
  below-Holds v paths more =
      Holds-append IsBuilt paths more (build_node rec v (paths ++ more))
        (build_node-Holds v (paths ++ more))

  build_additional-Holds :
      (o : Option Any) (segment : String) (paths : Paths)
      → Holds SubBuilt paths (build_additional rec o (under paths segment))
  unfolding build_additional
  build_additional-Holds none segment paths = tt
  build_additional-Holds (some v) segment paths =
      >>=-Holds IsBuilt SubBuilt paths (build_node rec v (under paths segment)) _
        (below-Holds v paths (segment ∷ [])) (λ s h. h)

  build_items-Holds :
      (i : ℕ) (vs : List Any) (paths : Paths) → Holds ListBuilt paths (build_items rec i vs paths)
  unfolding build_items
  build_items-Holds i [] paths = tt
  build_items-Holds i (v ∷ vs) paths =
      >>=-Holds IsBuilt ListBuilt paths (build_node rec v (under paths (index i))) _
        (below-Holds v paths (index i ∷ []))
        (λ s h.
          >>=-Holds ListBuilt ListBuilt paths (build_items rec (suc i) vs paths) _
            (build_items-Holds (suc i) vs paths) (λ rest hs. (h, hs)))

  build_list_schema-Holds :
      (node : Entries) (o : Option Any) (paths : Paths)
      → Holds IsBuilt paths (build_list_schema rec node o paths)
  unfolding build_list_schema
  build_list_schema-Holds node none paths = fail_here-Holds IsBuilt paths "no items"
  build_list_schema-Holds node (some (list xs)) paths =
      >>=-Holds ListBuilt IsBuilt paths (build_items rec 0 (items xs) paths) _
        (build_items-Holds 0 (items xs) paths)
        (λ children hs.
          >>=-Holds SubBuilt IsBuilt paths
            (build_additional rec (lookup "additionalItems" node) (under paths ".additionalItems"))
            _ (build_additional-Holds (lookup "additionalItems" node) ".additionalItems" paths)
            (λ more h. (hs, h)))
  build_list_schema-Holds node (some v) paths =
      >>=-Holds IsBuilt IsBuilt paths (build_node rec v paths) _ (build_node-Holds v paths)
        (λ s h. (h, non_negative-NotNegative _, non_negative-NotNegative _))

  build_each-Holds :
      (key : String) (i : ℕ) (nodes : List Entries) (paths : Paths)
      → Holds ListBuilt paths (build_each rec key i nodes paths)
  unfolding build_each
  build_each-Holds key i [] paths = tt
  build_each-Holds key i (node ∷ nodes) paths =
      >>=-Holds IsBuilt ListBuilt paths (rec node (paths ++ key ∷ index i ∷ [])) _
        (child-Holds node paths (key ∷ index i ∷ []))
        (λ s h.
          >>=-Holds ListBuilt ListBuilt paths (build_each rec key (suc i) nodes paths) _
            (build_each-Holds key (suc i) nodes paths) (λ rest hs. (h, hs)))

  build_any_of-Holds :
      (o : Option (List Entries)) (paths : Paths)
      → Holds IsBuilt paths (build_any_of_schema rec o paths)
  unfolding build_any_of_schema
  build_any_of-Holds none paths = fail_here-Holds IsBuilt paths "no valid anyOf attribute"
  build_any_of-Holds (some nodes) paths =
      >>=-Holds ListBuilt IsBuilt paths (build_each rec ".anyOf" 0 nodes paths) _
        (build_each-Holds ".anyOf" 0 nodes paths) (λ ss hs. hs)

  build_all_of-Holds :
      (o : Option (List Entries)) (paths : Paths)
      → Holds IsBuilt paths (build_all_of_schema rec o paths)
  unfolding build_all_of_schema
  build_all_of-Holds none paths = fail_here-Holds IsBuilt paths "no valid allOf attribute"
  build_all_of-Holds (some nodes) paths =
      >>=-Holds ListBuilt IsBuilt paths (build_each rec ".allOf" 0 nodes paths) _
        (build_each-Holds ".allOf" 0 nodes paths) (λ ss hs. hs)

  build_not-Holds :
      (o : Option Entries) (paths : Paths) → Holds IsBuilt paths (build_not_schema rec o paths)
  unfolding build_not_schema
  build_not-Holds none paths = fail_here-Holds IsBuilt paths "no valid not attribute"
  build_not-Holds (some node) paths =
      >>=-Holds IsBuilt IsBuilt paths (rec node (under paths ".not")) _
        (child-Holds node paths (".not" ∷ [])) (λ s h. h)

  build_returns-Holds :
      (o : Option Entries) (paths : Paths) → Holds SubBuilt paths (build_returns rec o paths)
  unfolding build_returns
  build_returns-Holds none paths = tt
  build_returns-Holds (some node) paths =
      >>=-Holds IsBuilt SubBuilt paths (rec (or_any node) (under paths ".returns")) _
        (child-Holds (or_any node) paths (".returns" ∷ [])) (λ s h. h)

  build_method-Holds :
      (node : Entries) (o : Option (List Entries)) (paths : Paths)
      → Holds IsBuilt paths (build_method_schema rec node o paths)
  unfolding build_method_schema
  build_method-Holds node none paths =
      fail_here-Holds IsBuilt paths "params is not a list of objects"
  build_method-Holds node (some nodes) paths =
      >>=-Holds ListBuilt IsBuilt paths (build_each rec ".params" 0 nodes paths) _
        (build_each-Holds ".params" 0 nodes paths)
        (λ params hs.
          >>=-Holds SubBuilt IsBuilt paths
            (build_additional rec (lookup "additionalParams" node)
              (under paths ".additionalParams"))
            _ (build_additional-Holds (lookup "additionalParams" node) ".additionalParams" paths)
            (λ more h.
              >>=-Holds SubBuilt IsBuilt paths
                (build_returns rec (convert_attr_map node "returns" true) paths) _
                (build_returns-Holds (convert_attr_map node "returns" true) paths)
                (λ returns h'. (hs, h', h))))

  build_props-Holds :
      (nodes : List (String × Entries)) (found : Props) (paths : Paths)
      → MapBuilt found
      → Holds MapBuilt paths (build_props rec nodes found paths)
  unfolding build_props
  build_props-Holds [] found paths h = h
  build_props-Holds ((name, node) ∷ nodes) found paths h =
      >>=-Holds IsBuilt MapBuilt paths (rec node (paths ++ ".properties" ∷ dotted name ∷ [])) _
        (child-Holds node paths (".properties" ∷ dotted name ∷ []))
        (λ s hs.
          build_props-Holds nodes (store_prop name s found) paths
            (MapBuilt-store_prop name s found hs h))

  build_object-Holds :
      (node : Entries) (o : Option (List (String × Entries))) (paths : Paths)
      → Holds IsBuilt paths (build_object_schema rec node o paths)
  unfolding build_object_schema
  build_object-Holds node none paths =
      fail_here-Holds IsBuilt paths "properties is not a map of objects"
  build_object-Holds node (some nodes) paths =
      >>=-Holds MapBuilt IsBuilt paths (build_props rec nodes no_props paths) _
        (build_props-Holds nodes no_props paths (tt, tt))
        (λ found (d, hs).
          >>=-Holds (RequiresBuilt found) IsBuilt paths
            (required found (convert_attr_list_of_string node "requires" true) paths) _
            (required-Holds found (convert_attr_list_of_string node "requires" true) paths)
            (λ requires (d', known).
              >>=-Holds SubBuilt IsBuilt paths
                (build_additional rec (lookup "additionalProperties" node)
                  (under paths ".additionalProperties"))
                _
                (build_additional-Holds (lookup "additionalProperties" node) ".additionalProperties"
                  paths)
                (λ more h. (d, d', known, hs, h))))

  build_type-Holds :
      (kind : String) (node : Entries) (paths : Paths)
      → Holds IsBuilt paths (build_type rec kind node paths)
  unfolding build_type build_number_schema build_integer_schema build_string_schema
  build_type-Holds kind node paths = either-Holds IsBuilt paths (kind == "number") _ _ tt (
      either-Holds IsBuilt paths (kind == "integer") _ _ tt (
        either-Holds IsBuilt paths (kind == "bool") _ _ tt (
          either-Holds IsBuilt paths (kind == "any") _ _ tt (
            either-Holds IsBuilt paths (kind == "null") _ _ tt (
              either-Holds IsBuilt paths (kind == "string") _ _
                (non_negative-NotNegative _, non_negative-NotNegative _)
                (either-Holds IsBuilt paths (kind == "anyOf") _ _ (build_any_of-Holds _ paths) (
                  either-Holds IsBuilt paths (kind == "allOf") _ _ (build_all_of-Holds _ paths) (
                    either-Holds IsBuilt paths (kind == "not") _ _ (build_not-Holds _ paths) (
                      either-Holds IsBuilt paths (kind == "list") _ _
                        (build_list_schema-Holds node _ paths)
                        (either-Holds IsBuilt paths (kind == "object") _ _
                          (build_object-Holds node _ paths)
                          (either-Holds IsBuilt paths (kind == "method") _ _
                            (build_method-Holds node _ paths)
                            (fail_here-Holds IsBuilt paths "unknown type"))))))))))))

  build_typed-Holds :
      (o : Option Any) (node : Entries) (paths : Paths)
      → Holds IsBuilt paths (build_typed rec o node paths)
  unfolding build_typed
  build_typed-Holds none node paths = fail_here-Holds IsBuilt paths "no type presented"
  build_typed-Holds (some (str kind)) node paths =
      >>=-Holds IsBuilt IsBuilt paths (build_type rec kind node paths) _
        (build_type-Holds kind node paths) (λ s h. build_mixin-Holds node paths s h)
  build_typed-Holds (some _) node paths = fail_here-Holds IsBuilt paths "unknown type"

node_map-Holds :
    (fuel : ℕ) (node : Entries) (paths : Paths)
    → Holds IsBuilt paths (build_node_map fuel node paths)
unfolding build_node_map
node_map-Holds zero node paths = tt
node_map-Holds (suc fuel) node paths =
    build_typed-Holds (build_node_map fuel) (node_map-Holds fuel) (lookup "type" node) node paths

-- Every schema that is built has lengths with bounds that are not negative, maps without repeated
-- keys, and requires only properties, and so have the schemas that it holds; every error is one of
-- building, at the path of the node or below it; and the builder does not panic.
pub build_node-Holds_always :
    (fuel : ℕ) (data' : Any) (paths : Paths)
    → Holds IsBuilt paths (build_node (build_node_map fuel) data' paths)
build_node-Holds_always fuel data' paths =
    build_node-Holds (build_node_map fuel) (node_map-Holds fuel) data' paths
