-- ===== src/Schema/Builder/WellFormed.antt =====
-- What a built schema is to be, and the builders' steps that keep it.
use jsoff.Base.{
  ℤ, pos, negsuc, String, Bool, true, ◌==◌, Option, none, some, List, [], ◌∷◌, ◌≡◌, lookup, store,
  is_some, All, Bool-cases, inl, inr,
}
use jsoff.Value.{Any, str}
use jsoff.Schema.{
  Mixin, Schema, any_schema, null_schema, bool_schema, number_schema, integer_schema, string_schema,
  any_of, all_of, not_schema, list_schema, tuple_schema, method_schema, object_schema, Schemas,
  no_more, child, to_schemas, Maybe, absent, present, Props, no_props, prop, props, set_mixin,
}
use jsoff.Schema.Scan.{dotted}
use jsoff.Schema.Document.{Entries}
use jsoff.Schema.Leaf.{non_negative, build_mixin, set_name, set_description}
use jsoff.Schema.Equal.Reflexive.{Distinct}
use jsoff.Schema.Builder.{Paths, build_requires, required, store_prop}
use jsoff.Schema.Builder.Holds.{
  Holds, fail-Holds, if-Holds, bind-Holds, Distinct-store, All-store, props-store_prop,
}

-- A bound that is set is not negative.
abbrev pub NotNegative : Option ℤ → Type 0
NotNegative none = Unit
NotNegative (some (pos n)) = Unit
NotNegative (some (negsuc n)) = ⊥

-- The names are those of properties.
abbrev pub Names : Props → List (String × Bool) → Type 0
Names ps = All (λ entry. is_some (lookup entry.0 (props ps)) ≡ true)

-- The bounds on lengths are not negative, no key is twice in a map, and only properties are
-- required; so in each schema below.
abbrev mutual
  pub IsBuilt : Schema → Type 0
  IsBuilt (any_schema m) = Unit
  IsBuilt (null_schema m) = Unit
  IsBuilt (bool_schema m) = Unit
  IsBuilt (number_schema m r) = Unit
  IsBuilt (integer_schema m r) = Unit
  IsBuilt (string_schema m longest shortest) = NotNegative longest × NotNegative shortest
  IsBuilt (any_of m ss) = AllBuilt ss
  IsBuilt (all_of m ss) = AllBuilt ss
  IsBuilt (not_schema m s) = IsBuilt s
  IsBuilt (list_schema m s fewest most) = IsBuilt s × NotNegative fewest × NotNegative most
  IsBuilt (tuple_schema m ss more) = AllBuilt ss × SubBuilt more
  IsBuilt (method_schema m ss returns more) = AllBuilt ss × SubBuilt returns × SubBuilt more
  IsBuilt (object_schema m ps requires more) =
      Distinct (props ps) × Distinct requires × Names ps requires × PropsBuilt ps × SubBuilt more

  pub AllBuilt : Schemas → Type 0
  AllBuilt no_more = Unit
  AllBuilt (child s ss) = IsBuilt s × AllBuilt ss

  pub SubBuilt : Maybe → Type 0
  SubBuilt absent = Unit
  SubBuilt (present s) = IsBuilt s

  pub PropsBuilt : Props → Type 0
  PropsBuilt no_props = Unit
  PropsBuilt (prop k s ps) = IsBuilt s × PropsBuilt ps

abbrev pub ListBuilt : List Schema → Type 0
ListBuilt ss = AllBuilt (to_schemas ss)

abbrev pub MapBuilt : Props → Type 0
MapBuilt ps = Distinct (props ps) × PropsBuilt ps

pub set_mixin-IsBuilt : (s : Schema) (m : Mixin) → IsBuilt s → IsBuilt (set_mixin s m)
set_mixin-IsBuilt (any_schema _) m h = h
set_mixin-IsBuilt _ m h = h

pub non_negative-NotNegative : (o : Option ℤ) → NotNegative (non_negative o)
non_negative-NotNegative none = tt
non_negative-NotNegative (some (pos n)) = tt
non_negative-NotNegative (some (negsuc n)) = tt

pub PropsBuilt-store_prop :
    (k : String) (s : Schema) (ps : Props)
    → IsBuilt s
    → PropsBuilt ps
    → PropsBuilt (store_prop k s ps)
PropsBuilt-store_prop k s no_props h hs = (h, tt)
PropsBuilt-store_prop k s (prop j t ps) h (ht, hs) = elim (Bool-cases (j == k)) [
  | inl e ↦ rw e (h, hs)
  | inr e ↦ rw e (ht, PropsBuilt-store_prop k s ps h hs)
]

pub MapBuilt-store_prop :
    (k : String) (s : Schema) (ps : Props) → IsBuilt s → MapBuilt ps → MapBuilt (store_prop k s ps)
MapBuilt-store_prop k s ps h (d, hs) = (
  rw (props-store_prop k s ps) (Distinct-store k s (props ps) d),
  PropsBuilt-store_prop k s ps h hs,
)

module _ (node : Entries) (paths : Paths) where
  pub set_name-Holds :
      (o : Option Any) (s : Schema) → IsBuilt s → Holds IsBuilt paths (some (set_name o s paths))
  set_name-Holds none s h = h
  set_name-Holds (some (str t)) s h = set_mixin-IsBuilt s _ h
  set_name-Holds (some _) s h = fail-Holds IsBuilt paths "name must be string" (".name" ∷ [])

  pub set_description-Holds :
      (o : Option Any) (s : Schema)
      → IsBuilt s
      → Holds IsBuilt paths (some (set_description o s paths))
  set_description-Holds none s h = h
  set_description-Holds (some (str t)) s h = set_mixin-IsBuilt s _ h
  set_description-Holds (some _) s h =
      fail-Holds IsBuilt paths "decsription must be string" (".description" ∷ [])

  pub build_mixin-Holds :
      (s : Schema) → IsBuilt s → Holds IsBuilt paths (some (build_mixin s node paths))
  unfolding build_mixin
  build_mixin-Holds s h =
      bind-Holds IsBuilt IsBuilt paths (set_name (lookup "name" node) s paths) _
        (set_name-Holds (lookup "name" node) s h)
        (λ named. set_description-Holds (lookup "description" node) named)

abbrev pub RequiresBuilt : Props → List (String × Bool) → Type 0
RequiresBuilt found requires = Distinct requires × Names found requires

pub build_requires-Holds :
    (found : Props) (names : List String) (requires : List (String × Bool)) (paths : Paths)
    → RequiresBuilt found requires
    → Holds (RequiresBuilt found) paths (build_requires found names requires paths)
unfolding build_requires
build_requires-Holds found [] requires paths h = h
build_requires-Holds found (name ∷ names) requires paths (d, h) =
    if-Holds (RequiresBuilt found) paths (is_some (lookup name (props found))) _ _
      (λ known.
        build_requires-Holds found names (store name true requires) paths
          (Distinct-store name true requires d, All-store _ name true requires known h))
      (fail-Holds (RequiresBuilt found) paths "cannot find required prop"
        (".requires" ∷ dotted name ∷ []))

pub required-Holds :
    (found : Props) (o : Option (List String)) (paths : Paths)
    → Holds (RequiresBuilt found) paths (required found o paths)
required-Holds found none paths =
    fail-Holds (RequiresBuilt found) paths "requires is not a list of strings" (".requires" ∷ [])
required-Holds found (some names) paths = build_requires-Holds found names [] paths (tt, tt)
