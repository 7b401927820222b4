-- ===== src/Value/Read.antt =====
-- What is read of a JSON text with `UseNumber`: every number is a json.Number, that is a `number` with its
-- literal, so there is no Go integer or float, and nothing of another type. How encoding/json prints the
-- values that have no such form is a parameter.
pub mod Samples
pub mod Text
use jsoff.Base.{ℕ, ℤ, String, Bool, true, false, ◌&&◌, ◌≡◌, refl}
use jsoff.Value.{
  Any, nil, bool, int, float64, number, str, list, object, other, Items, end, item, Fields,
  none_left, field,
}

unfoldable mutual
  pub is_document : Any → Bool
  is_document nil = true
  is_document (bool b) = true
  is_document (int n) = false
  is_document (float64 f) = false
  is_document (number literal) = true
  is_document (str s) = true
  is_document (list xs) = are_documents xs
  is_document (object m) = hold_documents m
  is_document (other n) = false

  are_documents : Items → Bool
  are_documents end = true
  are_documents (item v vs) = is_document v && are_documents vs

  hold_documents : Fields → Bool
  hold_documents none_left = true
  hold_documents (field k v m) = is_document v && hold_documents m

-- The literals that encoding/json prints for integers and floats, and what its print of a value of another type
-- is read as.
pub record Literals : Type 0 where
  pub int_literal : ℤ → String
  pub float_literal : ℕ → String
  pub other_document : ℕ → Any
  pub other-is_document : (n : ℕ) → is_document (other_document n) ≡ true

module _ (lib : Literals) where
  -- The value that is read of the text of a value.
  unfoldable mutual
    pub as_read : Any → Any
    as_read nil = nil
    as_read (bool b) = bool b
    as_read (int n) = number (lib.int_literal n)
    as_read (float64 f) = number (lib.float_literal f)
    as_read (number literal) = number literal
    as_read (str s) = str s
    as_read (list xs) = list (items_as_read xs)
    as_read (object m) = object (fields_as_read m)
    as_read (other n) = lib.other_document n

    pub items_as_read : Items → Items
    items_as_read end = end
    items_as_read (item v vs) = item (as_read v) (items_as_read vs)

    pub fields_as_read : Fields → Fields
    fields_as_read none_left = none_left
    fields_as_read (field k v m) = field k (as_read v) (fields_as_read m)

  mutual
    unfolding is_document as_read

    pub as_read-is_document : (v : Any) → is_document (as_read v) ≡ true
    as_read-is_document nil = refl
    as_read-is_document (bool b) = refl
    as_read-is_document (int n) = refl
    as_read-is_document (float64 f) = refl
    as_read-is_document (number literal) = refl
    as_read-is_document (str s) = refl
    as_read-is_document (list xs) = items_as_read-are_documents xs
    as_read-is_document (object m) = fields_as_read-hold_documents m
    as_read-is_document (other n) = lib.other-is_document n

    items_as_read-are_documents : (xs : Items) → are_documents (items_as_read xs) ≡ true
    items_as_read-are_documents end = refl
    items_as_read-are_documents (item v vs) =
        rw (as_read-is_document v) (items_as_read-are_documents vs)

    fields_as_read-hold_documents : (m : Fields) → hold_documents (fields_as_read m) ≡ true
    fields_as_read-hold_documents none_left = refl
    fields_as_read-hold_documents (field k v m) =
        rw (as_read-is_document v) (fields_as_read-hold_documents m)
