-- ===== src/Schema.antt =====
-- schema/types.go: the schemas, one constructor for each struct that implements `Schema`, with its
-- fields. A pointer field is an `Option`; a slice or map field is never nil, as the constructors of
-- schema.go make it; the child of a "not" and the item of a "list" are never nil, as the builder
-- sets them. A map of properties is the list of its entries in the order of an iteration.
pub mod Validator
pub mod Scan
pub mod Check
pub mod Conforms
pub mod Equal
pub mod Document
pub mod Convert
pub mod Leaf
pub mod Builder
pub mod Yaml
mod Tests
use jsoff.Base.{ℕ, ℤ, String, Bool, Option, none, some, List, [], ◌∷◌}

pub record Mixin : Type 0 where
  pub name : String
  pub description : String

abbrev pub no_mixin : Mixin
no_mixin = record { name = ""; description = "" }

-- The four fields that a number schema (over float64) and an integer schema (over int64) share.
pub record Range (A : Type 0) : Type 0 where
  pub minimum : Option A
  pub maximum : Option A
  pub exclusive_minimum : Option Bool
  pub exclusive_maximum : Option Bool

mutual
  pub data Schema : Type 0 where
    any_schema null_schema bool_schema : Mixin → Schema
    number_schema : Mixin → Range ℕ → Schema
    integer_schema : Mixin → Range ℤ → Schema
    string_schema : Mixin → (max_length min_length : Option ℤ) → Schema
    any_of all_of : Mixin → Schemas → Schema
    not_schema : Mixin → Schema → Schema
    list_schema : Mixin → (item : Schema) → (min_items max_items : Option ℤ) → Schema
    tuple_schema : Mixin → (children : Schemas) → (additional : Maybe) → Schema
    method_schema : Mixin → (params : Schemas) → (returns additional : Maybe) → Schema
    object_schema :
        Mixin
        → (properties : Props) → (requires : List (String × Bool)) → (additional : Maybe) → Schema

  pub data Schemas : Type 0 where
    no_more : Schemas
    child : Schema → Schemas → Schemas

  pub data Maybe : Type 0 where
    absent : Maybe
    present : Schema → Maybe

  pub data Props : Type 0 where
    no_props : Props
    prop : String → Schema → Props → Props

abbrev pub schemas : Schemas → List Schema
schemas no_more = []
schemas (child s ss) = s ∷ schemas ss

abbrev pub to_schemas : List Schema → Schemas
to_schemas [] = no_more
to_schemas (s ∷ ss) = child s (to_schemas ss)

abbrev pub props : Props → List (String × Schema)
props no_props = []
props (prop k s ps) = (k, s) ∷ props ps

abbrev pub to_maybe : Option Schema → Maybe
to_maybe none = absent
to_maybe (some s) = present s

-- `GetName`, `GetDescription` of the mixin.
abbrev pub mixin : Schema → Mixin
mixin (any_schema m) = m
mixin (null_schema m) = m
mixin (bool_schema m) = m
mixin (number_schema m _) = m
mixin (integer_schema m _) = m
mixin (string_schema m _ _) = m
mixin (any_of m _) = m
mixin (all_of m _) = m
mixin (not_schema m _) = m
mixin (list_schema m _ _ _) = m
mixin (tuple_schema m _ _) = m
mixin (method_schema m _ _ _) = m
mixin (object_schema m _ _ _) = m

-- A schema whose mixin is another: what `SetName` and `SetDescription` change.
abbrev pub set_mixin : Schema → Mixin → Schema
set_mixin (any_schema _) m = any_schema m
set_mixin (null_schema _) m = null_schema m
set_mixin (bool_schema _) m = bool_schema m
set_mixin (number_schema _ r) m = number_schema m r
set_mixin (integer_schema _ r) m = integer_schema m r
set_mixin (string_schema _ a b) m = string_schema m a b
set_mixin (any_of _ c) m = any_of m c
set_mixin (all_of _ c) m = all_of m c
set_mixin (not_schema _ c) m = not_schema m c
set_mixin (list_schema _ i a b) m = list_schema m i a b
set_mixin (tuple_schema _ c a) m = tuple_schema m c a
set_mixin (method_schema _ p r a) m = method_schema m p r a
set_mixin (object_schema _ p r a) m = object_schema m p r a
