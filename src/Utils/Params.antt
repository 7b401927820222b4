-- ===== src/Utils/Params.antt =====
-- `DecodeParams` of utils.go, which sets the fields of a struct to the params of a message. A struct is a state `S`:
-- of `reflect.VisibleFields`, which also lists the promoted fields of an embedded struct, two fields may share
-- memory. Decoding a param by mapstructure and setting the field by `FieldByIndex`, which panics below a nil
-- embedded pointer, are a parameter.
use jsoff.Base.{String, List, [], ◌∷◌, ◌≡◌, ◌∙◌, refl}
use jsoff.Value.{Any}
use jsoff.Result.{GoError, Raised, Result, ok, err, panic, foreign}

-- A field by its name: what `IsExported` says of it is its constructor.
pub data Field : Type 0 where
  exported_field : String → Field
  unexported : String → Field

-- What is given: a pointer to a struct with its visible fields, a pointer to another type, or no pointer.
pub data Output (S : Type 0) : Type 0 where
  pointer_to_struct : List Field → S → Output S
  pointer_to_other : Output S
  no_pointer : Output S

-- The names of the fields that are exported.
abbrev pub exported : List Field → List String
exported [] = []
exported (exported_field name ∷ fields) = name ∷ exported fields
exported (unexported name ∷ fields) = exported fields

module _ {S : Type 0} (set_field : String → Any → S → Result S) where
  -- What the loop goes on with: where setting a field fails, the struct is as it was set before.
  abbrev pub after_set : Result S → S → (S → Result {0} Unit × S) → Result {0} Unit × S
  after_set (ok t) s loop = loop t
  after_set (err e) s loop = (err e, s)
  after_set (panic r) s loop = (panic r, s)

  -- The loop over the fields, with the params that are left.
  unfoldable pub fill_fields : List Field → List Any → S → Result {0} Unit × S
  fill_fields [] params s = (ok tt, s)
  fill_fields (unexported name ∷ fields) params s = fill_fields fields params s
  fill_fields (exported_field name ∷ fields) [] s = fill_fields fields [] s
  fill_fields (exported_field name ∷ fields) (p ∷ params) s =
      after_set (set_field name p s) s (λ t. fill_fields fields params t)

  abbrev pub in_struct : List Field → Result {0} Unit × S → Result {0} Unit × Output S
  in_struct fields (r, s) = (r, pointer_to_struct fields s)

  -- `DecodeParams`
  unfoldable pub decode_params : List Any → Output S → Result {0} Unit × Output S
  decode_params params no_pointer = (err (foreign "output is not a pointer"), no_pointer)
  decode_params params pointer_to_other =
      (err (foreign "output is not pointer of struct"), pointer_to_other)
  decode_params params (pointer_to_struct fields s) = in_struct fields (fill_fields fields params s)

  -- The names are set to the params in turn, as far as both go or until one cannot be set.
  pub data Fills : List String → List Any → S → Result {0} Unit → S → Type 0 where
    no_fields : (ps : List Any) (s : S) → Fills [] ps s (ok tt) s
    no_params : (names : List String) (s : S) → Fills names [] s (ok tt) s
    fills :
        (name : String) (names : List String) (p : Any) (ps : List Any) (s t u : S)
        (r : Result {0} Unit)
        → set_field name p s ≡ ok t
        → Fills names ps t r u
        → Fills (name ∷ names) (p ∷ ps) s r u
    fails :
        (name : String) (names : List String) (p : Any) (ps : List Any) (s : S) (e : GoError)
        → set_field name p s ≡ err e
        → Fills (name ∷ names) (p ∷ ps) s (err e) s
    panics :
        (name : String) (names : List String) (p : Any) (ps : List Any) (s : S) (r : Raised)
        → set_field name p s ≡ panic r
        → Fills (name ∷ names) (p ∷ ps) s (panic r) s

  abbrev Filled : List String → List Any → S → Result {0} Unit × S → Type 0
  Filled names ps s (r, t) = Fills names ps s r t

  none_left : (fields : List Field) (s : S) → fill_fields fields [] s ≡ (ok tt, s)
  unfolding fill_fields
  none_left [] s = refl
  none_left (exported_field name ∷ fields) s = none_left fields s
  none_left (unexported name ∷ fields) s = none_left fields s

  fill_fields-Filled :
      (fields : List Field) (ps : List Any) (s : S)
      → Filled (exported fields) ps s (fill_fields fields ps s)
  unfolding fill_fields
  fill_fields-Filled [] ps s = no_fields ps s
  fill_fields-Filled (unexported name ∷ fields) ps s = fill_fields-Filled fields ps s
  fill_fields-Filled (exported_field name ∷ fields) [] s =
      rw (none_left fields s) (no_params (name ∷ exported fields) s)
  fill_fields-Filled (exported_field name ∷ fields) (p ∷ ps) s =
      go (λ t. fill_fields-Filled fields ps t) (set_field name p s) refl
    where
      go :
          ((t : S) → Filled (exported fields) ps t (fill_fields fields ps t))
          → (o : Result S) → set_field name p s ≡ o
          → Filled
              (name ∷ exported fields)
              (p ∷ ps)
              s
              (after_set o s (λ t. fill_fields fields ps t))
      go later (ok t) e =
          fills name (exported fields) p ps s t (fill_fields fields ps t).1
            (fill_fields fields ps t).0 e (later t)
      go later (err e') e = fails name (exported fields) p ps s e' e
      go later (panic r) e = panics name (exported fields) p ps s r e

  module _ {A : Type 0} (view : S → A)
      (kept : (name : String) (p : Any) (s t : S)
        → set_field name p s ≡ ok t
        → view t ≡ view s) where
    Fills-view :
        (names : List String) (ps : List Any) (s t : S) (r : Result {0} Unit)
        → Fills names ps s r t
        → view t ≡ view s
    Fills-view _ _ s _ _ (no_fields ps _) = refl
    Fills-view _ _ s _ _ (no_params names _) = refl
    Fills-view _ _ s u _ (fills name names p ps _ t _ r e rest) =
        Fills-view names ps t u r rest ∙ kept name p s t e
    Fills-view _ _ s _ _ (fails name names p ps _ e' e) = refl
    Fills-view _ _ s _ _ (panics name names p ps _ r e) = refl

    -- DecodeParams sets the exported fields of a struct to the params in turn, as far as both go; where a param
    -- cannot be set, it returns that error, or panics, and the fields before it stay set. What no setting of an
    -- exported field changes is as it was.
    pub decode_params-Fills :
        (fields : List Field) (ps : List Any) (s : S)
        → (r : Result {0} Unit) × (t : S) × (decode_params ps (pointer_to_struct fields s)
            ≡ (r, pointer_to_struct fields t))
          × Fills (exported fields) ps s r t
          × (view t ≡ view s)
    unfolding decode_params
    decode_params-Fills fields ps s =
        let filled = fill_fields-Filled fields ps s in
        (
          (fill_fields fields ps s).0,
          (fill_fields fields ps s).1,
          refl,
          filled,
          Fills-view (exported fields) ps s (fill_fields fields ps s).1 (fill_fields fields ps s).0
              filled,
        )
