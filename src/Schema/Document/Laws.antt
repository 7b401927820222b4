-- ===== src/Schema/Document/Laws.antt =====
-- What the document of a schema tells of the schema.
use jsoff.Base.{
  String, Bool, false, Option, none, some, ◌≡◌, refl, ◌==◌, lookup, store, lookup-store,
  if◌then◌else◌, Bool-cases, inl, inr, ◌∙◌,
}
use jsoff.Value.{Any, str}
use jsoff.Schema.{
  Mixin, Range, Schema, any_schema, null_schema, bool_schema, number_schema, integer_schema,
  string_schema, any_of, all_of, not_schema, list_schema, tuple_schema, method_schema,
  object_schema, mixin,
}
use jsoff.Schema.Document.{
  Entries, type_of, put_text, rebuild_type, put_bound, put_range, put_if, entries, float_bound,
  int_bound, sub_map,
}

-- The text of a field, if it is not empty.
abbrev pub text_entry : String → Option Any
text_entry t = if t == "" then none else some (str t)

lookup-put_text :
    (j k t : String) (m : Entries)
    → lookup j (put_text k t m)
      ≡ (if t == "" then lookup j m else if k == j then some (str t) else lookup j m)
lookup-put_text j k t m = elim (Bool-cases (t == "")) [
  | inl e ↦ rw e refl
  | inr e ↦ rw e (lookup-store k j (str t) m)
]

-- What holds of the three keys of the mixin.
abbrev Tells : Mixin → String → Entries → Type 0
Tells m kind es =
    (lookup "type" es ≡ some (str kind))
    × (lookup "name" es ≡ text_entry m.name)
    × (lookup "description" es ≡ text_entry m.description)

rebuild_type-Tells : (m : Mixin) (kind : String) → Tells m kind (rebuild_type m kind)
unfolding rebuild_type lookup store
rebuild_type-Tells m kind = elim (Bool-cases (m.name == "")) [
  | inl e ↦ elim (Bool-cases (m.description == "")) [
    | inl e' ↦ rw (e, e', rebuild_type) (refl, refl, refl)
    | inr e' ↦ rw (e, e', rebuild_type) (refl, refl, refl)
  ]
  | inr e ↦ elim (Bool-cases (m.description == "")) [
    | inl e' ↦ rw (e, e', rebuild_type) (refl, refl, refl)
    | inr e' ↦ rw (e, e', rebuild_type) (refl, refl, refl)
  ]
]

-- The key is none of the three.
abbrev IsOther : String → Type 0
IsOther k = ((k == "type") ≡ false) × ((k == "name") ≡ false) × ((k == "description") ≡ false)

module _ (m : Mixin) (kind : String) where
  store-Tells :
      (k : String) (v : Any) (es : Entries)
      → IsOther k
      → Tells m kind es
      → Tells m kind (store k v es)
  store-Tells k v es (o, o', o'') (t, n, d) = (
    lookup-store k "type" v es ∙ rw o t,
    lookup-store k "name" v es ∙ rw o' n,
    lookup-store k "description" v es ∙ rw o'' d,
  )

  put_bound-Tells :
      (k exclusive : String) (o : Option Any) (ex : Option Bool) (es : Entries)
      → IsOther k
      → IsOther exclusive
      → Tells m kind es
      → Tells m kind (put_bound k exclusive o ex es)
  put_bound-Tells k exclusive none ex es h h' t = t
  put_bound-Tells k exclusive (some v) none es h h' t = store-Tells k v es h t
  put_bound-Tells k exclusive (some v) (some b) es h h' t =
      store-Tells exclusive (Any.bool b) (store k v es) h' (store-Tells k v es h t)

  put_if-Tells :
      (k : String) (o : Option Any) (es : Entries)
      → IsOther k
      → Tells m kind es
      → Tells m kind (put_if k o es)
  put_if-Tells k none es h t = t
  put_if-Tells k (some v) es h t = store-Tells k v es h t

  put_range-Tells :
      {A : Type 0} (bound : Option A → Option Any) (r : Range A) (es : Entries)
      → Tells m kind es
      → Tells m kind (put_range bound r es)
  put_range-Tells bound r es t =
      put_bound-Tells "minimum" "exclusiveMinimum" (bound r.minimum) r.exclusive_minimum _
        (refl, refl, refl) (refl, refl, refl)
        (put_bound-Tells "maximum" "exclusiveMaximum" (bound r.maximum) r.exclusive_maximum es
          (refl, refl, refl) (refl, refl, refl) t)

-- The document of a schema has the schema's type under "type", and its name and description under
-- "name" and "description", each exactly if it is not empty, whatever else the document has.
pub map-tells :
    (s : Schema)
    → (lookup "type" (entries s) ≡ some (str (type_of s)))
      × (lookup "name" (entries s) ≡ text_entry (mixin s).name)
      × (lookup "description" (entries s) ≡ text_entry (mixin s).description)
unfolding entries type_of
map-tells (any_schema m) = rebuild_type-Tells m "any"
map-tells (null_schema m) = rebuild_type-Tells m "null"
map-tells (bool_schema m) = rebuild_type-Tells m "bool"
map-tells (number_schema m r) =
    put_range-Tells m "number" float_bound r _ (rebuild_type-Tells m "number")
map-tells (integer_schema m r) =
    put_range-Tells m "integer" int_bound r _ (rebuild_type-Tells m "integer")
map-tells (string_schema m longest shortest) = rebuild_type-Tells m "string"
map-tells (any_of m choices) =
    store-Tells m "anyOf" "anyOf" _ _ (refl, refl, refl) (rebuild_type-Tells m "anyOf")
map-tells (all_of m choices) =
    store-Tells m "allOf" "allOf" _ _ (refl, refl, refl) (rebuild_type-Tells m "allOf")
map-tells (not_schema m s) =
    store-Tells m "not" "not" _ _ (refl, refl, refl) (rebuild_type-Tells m "not")
map-tells (list_schema m s fewest most) =
    store-Tells m "list" "items" _ _ (refl, refl, refl) (rebuild_type-Tells m "list")
map-tells (tuple_schema m children more) =
    store-Tells m "list" "items" _ _ (refl, refl, refl) (rebuild_type-Tells m "list")
map-tells (method_schema m params returns more) =
    put_if-Tells m "method" "additionalParams" (sub_map more) _ (refl, refl, refl)
      (put_if-Tells m "method" "returns" (sub_map returns) _ (refl, refl, refl)
        (store-Tells m "method" "params" _ _ (refl, refl, refl) (rebuild_type-Tells m "method")))
map-tells (object_schema m properties requires more) =
    put_if-Tells m "object" "additionalProperties" (sub_map more) _ (refl, refl, refl)
      (store-Tells m "object" "requires" _ _ (refl, refl, refl)
        (store-Tells m "object" "properties" _ _ (refl, refl, refl)
          (rebuild_type-Tells m "object")))
