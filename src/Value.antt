-- ===== src/Value.antt =====
-- The values that an `any` of the source holds: what `encoding/json` decodes into an interface
-- (with `UseNumber`), and the Go integers and floats that a caller may pass. A map is the list of
-- its entries in the order of an iteration; a float64 is its 64-bit pattern; a value of any other
-- Go type is `other`, which every type switch of the source lets fall through.
pub mod Number
pub mod Read
use jsoff.Base.{ℕ, ℤ, String, Bool, List, [], ◌∷◌}

mutual
  pub data Any : Type 0 where
    nil : Any
    bool : Bool → Any
    int : ℤ → Any
    float64 : ℕ → Any
    number : String → Any
    str : String → Any
    list : Items → Any
    object : Fields → Any
    other : ℕ → Any

  pub data Items : Type 0 where
    end : Items
    item : Any → Items → Items

  pub data Fields : Type 0 where
    none_left : Fields
    field : String → Any → Fields → Fields

abbrev pub items : Items → List Any
items end = []
items (item v vs) = v ∷ items vs

abbrev pub fields : Fields → List (String × Any)
fields none_left = []
fields (field k v m) = (k, v) ∷ fields m

abbrev pub to_items : List Any → Items
to_items [] = end
to_items (v ∷ vs) = item v (to_items vs)

abbrev pub to_fields : List (String × Any) → Fields
to_fields [] = none_left
to_fields ((k, v) ∷ m) = field k v (to_fields m)
