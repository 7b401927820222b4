-- ===== src/Schema/Yaml.antt =====
-- `FixYamlMaps` of schema/builder.go: a document that a YAML reader made, with maps whose keys may be
-- of any type, as a document with texts for keys. A key that is no text is given by how it prints;
-- any other value, also a map with texts for keys, is left as it is.
pub mod Laws
use jsoff.Base.{ℕ, suc, String, Option, some, none, List, [], ◌∷◌}
use jsoff.Value.{Any, list, object, to_items, to_fields}
use jsoff.Result.{Result, ok, err, panic, non_string_map, ◌>>=◌}
use jsoff.Schema.{Schema}
use jsoff.Schema.Scan.{index, dotted}
use jsoff.Schema.Builder.{Paths, Built, under, build_node, build_node_map}

pub data Key : Type 0 where
  text : String → Key
  printed : String → Key

mutual
  pub data Yaml : Type 0 where
    plain : Any → Yaml
    sequence : Elements → Yaml
    mapping : Pairs → Yaml

  pub data Elements : Type 0 where
    no_elements : Elements
    element : Yaml → Elements → Elements

  pub data Pairs : Type 0 where
    no_pairs : Pairs
    pair : Key → Yaml → Pairs → Pairs

unfoldable mutual
  pub fix_yaml_maps : Yaml → Paths → Result Any
  fix_yaml_maps (plain v) paths = ok v
  fix_yaml_maps (sequence xs) paths = do vs ← fix_elements xs 0 paths; ok (list (to_items vs))
  fix_yaml_maps (mapping m) paths = do entries ← fix_pairs m paths; ok (object (to_fields entries))

  pub fix_elements : Elements → ℕ → Paths → Result (List Any)
  fix_elements no_elements i paths = ok []
  fix_elements (element y ys) i paths = do
    v ← fix_yaml_maps y (under paths (index i))
    vs ← fix_elements ys (suc i) paths
    ok (v ∷ vs)

  pub fix_pairs : Pairs → Paths → Result (List (String × Any))
  fix_pairs no_pairs paths = ok []
  fix_pairs (pair (printed k) y m) paths = err (non_string_map (under paths (dotted k)))
  fix_pairs (pair (text k) y m) paths = do
    v ← fix_yaml_maps y (under paths (dotted k))
    entries ← fix_pairs m paths
    ok ((k, v) ∷ entries)

abbrev pub build_fixed : ℕ → Result Any → Built Schema
build_fixed fuel (ok v) = build_node (build_node_map fuel) v []
build_fixed fuel (err e) = some (err e)
build_fixed fuel (panic r) = some (panic r)

-- `BuildYamlInterface`
unfoldable pub build_yaml_interface : ℕ → Yaml → Built Schema
build_yaml_interface fuel y = build_fixed fuel (fix_yaml_maps y [])
