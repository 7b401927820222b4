-- ===== src/Net/Actor/Public.antt =====
-- `PublicSchemas` of net/request.go: the documents of the methods that a client may discover.
use jsoff.Base.{
  String, Option, none, some, List, [], ◌∷◌, ◌≡◌, refl, inl, inr, if◌then◌else◌, Bool-cases, lookup,
  store, lookup-store,
}
use jsoff.Value.{Any, str, list, object, to_items, to_fields}
use jsoff.Schema.{Schema}
use jsoff.Schema.Document.{entries}
use jsoff.Validators.{is_public_method}
use jsoff.Net.Actor.{Actor, method_list, get_schema}

-- The document of a method; its name is that of the method, also where the schema has another.
abbrev pub method_document : String → Option Schema → List (String × Any)
method_document name (some s) = store "name" (str name) (entries s)
method_document name none =
    ("name", str name)
    ∷ ("description", str "")
    ∷ ("params", list (to_items []))
    ∷ ("returns", object (to_fields (("type", str "any") ∷ [])))
    ∷ []

abbrev pub public_names : List String → List (Option Any)
public_names [] = []
public_names (name ∷ names) =
    let rest = public_names names in if is_public_method name then some (str name) ∷ rest else rest

abbrev pub names_of : List (List (String × Any)) → List (Option Any)
names_of [] = []
names_of (d ∷ ds) = lookup "name" d ∷ names_of ds

method_document-name :
    (name : String) (s : Option Schema) → lookup "name" (method_document name s) ≡ some (str name)
unfolding lookup
method_document-name name (some s) = lookup-store "name" "name" (str name) (entries s)
method_document-name name none = refl

module _ {W : Type 0} where
  unfoldable pub documents : Actor W → List String → List (List (String × Any))
  documents a [] = []
  documents a (name ∷ names) =
      let rest = documents a names in
      if is_public_method name then method_document name (get_schema a name) ∷ rest else rest

  unfoldable pub public_schemas : Actor W → List (List (String × Any))
  public_schemas a = documents a (method_list a)

  documents-names :
      (a : Actor W) (names : List String) → names_of (documents a names) ≡ public_names names
  unfolding documents
  documents-names a [] = refl
  documents-names a (name ∷ names) = elim (Bool-cases (is_public_method name)) [
    | inl e ↦
        rw e (rw (method_document-name name (get_schema a name), documents-names a names) refl)
    | inr e ↦ rw e (documents-names a names)
  ]

  -- The documents of PublicSchemas have, in order, the names of the methods in MethodList that are public.
  pub public_schemas-names :
      (a : Actor W) → names_of (public_schemas a) ≡ public_names (method_list a)
  unfolding public_schemas
  public_schemas-names a = documents-names a (method_list a)
