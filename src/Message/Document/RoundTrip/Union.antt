-- ===== src/Message/Document/RoundTrip/Union.antt =====
-- What the decoder reads off the document of a message.
use jsoff.Base.{
  ℤ, String, Bool, true, false, none, some, List, [], ◌∷◌, ◌≡◌, refl, ap, sym, ◌≢◌, ◌==◌, eq_iff,
  lookup, arith, Bool-cases, inl, inr,
}
use jsoff.Value.Number.{parse_int64}
use jsoff.Value.Read.{Literals, as_read, items_as_read, fields_as_read}
use jsoff.Value.{
  Items, end, item, Any, nil, bool, int, float64, number, str, list, object, other, items, to_items,
  fields, to_fields,
}
use jsoff.Result.{RpcError, ok, ◌>>=◌}
use jsoff.Message.{
  Message, RequestMessage, NotifyMessage, ResultMessage, ErrorMessage, request, notify, result,
  error, mk_request, mk_notify, mk_result, mk_error,
}
use jsoff.Message.Document.{
  trace_field, data_field, params_value, error_document, document, unmarshal_id, string_field,
  raw_field, MsgUnion, decode_union, decode_error_body, decode_params, MessageOptions, null_id,
  or_nil, code_field,
}

pub fields-to_fields : (m : List (String × Any)) → fields (to_fields m) ≡ m
fields-to_fields [] = refl
fields-to_fields ((k, v) ∷ m) = ap (λ r. (k, v) ∷ r) (fields-to_fields m)

pub items-to_items : (xs : List Any) → items (to_items xs) ≡ xs
items-to_items [] = refl
items-to_items (x ∷ xs) = ap (λ r. x ∷ r) (items-to_items xs)

pub lookup-trace_field : (k t : String) → ("traceid" == k) ≡ false → lookup k (trace_field t) ≡ none
unfolding lookup trace_field
lookup-trace_field k t h = elim (Bool-cases (t == "")) [ inl e ↦ rw e | inr e ↦ rw (e, h) ]

pub string_field-trace_field : (t : String) → string_field (lookup "traceid" (trace_field t)) ≡ ok t
unfolding lookup trace_field
string_field-trace_field t = elim (Bool-cases (t == "")) [
  | inl e ↦ rw e (ap ok (sym ((eq_iff t "").0 e)))
  | inr e ↦ rw e
]

-- An id that a JSONRPC message may have: null, an integer or a string.
abbrev pub IsValidId : Any → Type 0
IsValidId nil = Unit
IsValidId (int n) = Unit
IsValidId (str s) = Unit
IsValidId _ = ⊥

-- A single param that the document shows alone, in place of a list of params.
abbrev pub StandsAlone : List Any → Type 0
StandsAlone [] = ⊥
StandsAlone (nil ∷ _) = ⊥
StandsAlone (list _ ∷ _) = ⊥
StandsAlone (p ∷ []) = Unit
StandsAlone (p ∷ _ ∷ _) = ⊥

abbrev pub ParamsFit : Bool → List Any → Type 0
ParamsFit true ps = Unit
ParamsFit false ps = StandsAlone ps

-- What the constructors of a message establish, for an id that is allowed.
abbrev pub IsWellFormed : Message → Type 0
IsWellFormed (request m) =
    (m.base.kind ≡ mk_request)
    × IsValidId m.id
    × (m.method ≢ "")
    × ParamsFit m.params_are_list m.params
IsWellFormed (notify m) =
    (m.base.kind ≡ mk_notify) × (m.method ≢ "") × ParamsFit m.params_are_list m.params
IsWellFormed (result m) = (m.base.kind ≡ mk_result) × IsValidId m.id × (m.response_header ≡ none)
IsWellFormed (error m) = (m.base.kind ≡ mk_error) × IsValidId m.id × (m.response_header ≡ none)

-- The options accept the id; they say nothing of the id of an error.
abbrev pub IdAllowed : MessageOptions → Message → Type 0
IdAllowed opts (request m) = null_id opts m.id ≡ false
IdAllowed opts (result m) = null_id opts m.id ≡ false
IdAllowed opts _ = Unit

pub decode_params-value :
    (as_list : Bool) (ps : List Any)
    → ParamsFit as_list ps
    → decode_params (raw_field (some (params_value as_list ps))) ≡ ok (ps, as_list)
unfolding decode_params
decode_params-value true [] h = refl
decode_params-value true (p ∷ ps) h = ap (λ r. ok (p ∷ r, true)) (items-to_items ps)
decode_params-value false (bool b ∷ []) h = refl
decode_params-value false (int n ∷ []) h = refl
decode_params-value false (float64 f ∷ []) h = refl
decode_params-value false (number t ∷ []) h = refl
decode_params-value false (str s ∷ []) h = refl
decode_params-value false (object m ∷ []) h = refl
decode_params-value false (other n ∷ []) h = refl
decode_params-value false _ h = absurd h

abbrev pub union_of_request : RequestMessage → MsgUnion
union_of_request m = record {
  id = some m.id;
  result = none;
  error = none;
  params = raw_field (some (params_value m.params_are_list m.params));
  method = m.method;
  trace_id = m.base.trace_id;
}

-- The fields of the union in the documents of the other kinds.
abbrev pub union_of_notify : NotifyMessage → MsgUnion
union_of_notify m = record {
  id = none;
  result = none;
  error = none;
  params = raw_field (some (params_value m.params_are_list m.params));
  method = m.method;
  trace_id = m.base.trace_id;
}

abbrev pub union_of_result : ResultMessage → MsgUnion
union_of_result m = record {
  id = some m.id;
  result = raw_field (some m.result);
  error = none;
  params = none;
  method = "";
  trace_id = m.base.trace_id;
}

abbrev pub union_of_error : ErrorMessage → MsgUnion
union_of_error m = record {
  id = some m.id;
  result = none;
  error = some (error_document m.error);
  params = none;
  method = "";
  trace_id = m.base.trace_id;
}

pub to_items-items : (xs : Items) → to_items (items xs) ≡ xs
to_items-items end = refl
to_items-items (item v vs) = ap (item v) (to_items-items vs)

pub lookup-data_field : (v : Any) → or_nil (lookup "data" (data_field v)) ≡ v
unfolding lookup data_field
lookup-data_field nil = refl
lookup-data_field _ = refl

pub ne-empty : (s : String) → s ≢ "" → (s == "") ≡ false
ne-empty s h = ground (arith, eq_iff s "")

module _ (lib : Literals) where
  -- A message as it is read: its params, result and data of an error have a json.Number for every number.
  abbrev pub params_as_read : List Any → List Any
  params_as_read ps = items (items_as_read lib (to_items ps))

  abbrev pub read_request : RequestMessage → RequestMessage
  read_request m = record m { params = params_as_read m.params }

  abbrev pub read_notify : NotifyMessage → NotifyMessage
  read_notify m = record m { params = params_as_read m.params }

  abbrev pub read_result : ResultMessage → ResultMessage
  read_result m = record m { result = as_read lib m.result }

  abbrev pub read_error : ErrorMessage → ErrorMessage
  read_error m = record m { error = record m.error { data' = as_read lib m.error.data' } }

  abbrev pub read_message : Message → Message
  read_message (request m) = request (read_request m)
  read_message (notify m) = notify (read_notify m)
  read_message (result m) = result (read_result m)
  read_message (error m) = error (read_error m)

  -- The literal of an integer is read as that integer, which then fits into 64 bits.
  abbrev pub Fits64 : ℤ → Type 0
  Fits64 n = parse_int64 (lib.int_literal n) ≡ some n

  abbrev pub IdFits : Any → Type 0
  IdFits (int n) = Fits64 n
  IdFits _ = Unit

  -- A param that stands alone has one of the types that the document shows.
  abbrev pub IsPlain : Bool → List Any → Type 0
  IsPlain false (other n ∷ _) = ⊥
  IsPlain _ _ = Unit

  -- The id and the code of an error, which are read as integers, fit into 64 bits.
  abbrev pub Fits : Message → Type 0
  Fits (request m) = IdFits m.id × IsPlain m.params_are_list m.params
  Fits (notify m) = IsPlain m.params_are_list m.params
  Fits (result m) = IdFits m.id
  Fits (error m) = IdFits m.id × Fits64 m.error.code

  pub unmarshal_id-read :
      (id : Any) → IsValidId id → IdFits id → unmarshal_id (as_read lib id) ≡ ok id
  unfolding unmarshal_id as_read
  unmarshal_id-read nil v h = refl
  unmarshal_id-read (int n) v h = rw (h, unmarshal_id) refl
  unmarshal_id-read (str s) v h = refl
  unmarshal_id-read _ v h = absurd v

  trace-read :
      (t : String) → fields (fields_as_read lib (to_fields (trace_field t))) ≡ trace_field t
  unfolding fields_as_read as_read trace_field
  trace-read t = elim (Bool-cases (t == "")) [ inl e ↦ rw e refl | inr e ↦ rw e refl ]

  params-read :
      (as_list : Bool) (ps : List Any)
      → as_read lib (params_value as_list ps) ≡ params_value as_list (params_as_read ps)
  unfolding as_read items_as_read
  params-read as_list [] = refl
  params-read true (p ∷ ps) =
      ap (λ xs. list (item (as_read lib p) xs))
        (sym (to_items-items (items_as_read lib (to_items ps))))
  params-read false (p ∷ ps) = refl

  pub read-ParamsFit :
      (as_list : Bool) (ps : List Any)
      → ParamsFit as_list ps
      → IsPlain as_list ps
      → ParamsFit as_list (params_as_read ps)
  unfolding as_read items_as_read
  read-ParamsFit true ps h k = tt
  read-ParamsFit false (bool b ∷ []) h k = tt
  read-ParamsFit false (int n ∷ []) h k = tt
  read-ParamsFit false (float64 f ∷ []) h k = tt
  read-ParamsFit false (number t ∷ []) h k = tt
  read-ParamsFit false (str s ∷ []) h k = tt
  read-ParamsFit false (object m ∷ []) h k = tt
  read-ParamsFit false (other n ∷ []) h k = absurd k
  read-ParamsFit false _ h k = absurd h

  module _ (m : RequestMessage) (valid : IsValidId m.id) (fits : IdFits m.id) where
    pub decode_union-request :
        decode_union (as_read lib (document (request m))) ≡ ok (union_of_request (read_request m))
    unfolding decode_union document lookup as_read fields_as_read
    decode_union-request = simp (
      trace-read m.base.trace_id,
      params-read,
      unmarshal_id-read m.id valid fits,
      string_field-trace_field,
      lookup-trace_field "result" m.base.trace_id refl,
      lookup-trace_field "error" m.base.trace_id refl,
    )

  pub decode_union-notify :
      (m : NotifyMessage)
      → decode_union (as_read lib (document (notify m))) ≡ ok (union_of_notify (read_notify m))
  unfolding decode_union document lookup as_read fields_as_read
  decode_union-notify m = simp (
    trace-read m.base.trace_id,
    params-read,
    string_field-trace_field,
    lookup-trace_field "id" m.base.trace_id refl,
    lookup-trace_field "result" m.base.trace_id refl,
    lookup-trace_field "error" m.base.trace_id refl,
  )

  module _ (m : ResultMessage) (valid : IsValidId m.id) (fits : IdFits m.id) where
    pub decode_union-result :
        decode_union (as_read lib (document (result m))) ≡ ok (union_of_result (read_result m))
    unfolding decode_union document lookup as_read fields_as_read
    decode_union-result = simp (
      trace-read m.base.trace_id,
      unmarshal_id-read m.id valid fits,
      string_field-trace_field,
      lookup-trace_field "method" m.base.trace_id refl,
      lookup-trace_field "params" m.base.trace_id refl,
      lookup-trace_field "error" m.base.trace_id refl,
    )

  module _ (m : ErrorMessage) (valid : IsValidId m.id) (fits : IdFits m.id) where
    pub decode_union-error :
        decode_union (as_read lib (document (error m)))
        ≡ ok (record (union_of_error m) { error = some (as_read lib (error_document m.error)) })
    unfolding decode_union document lookup error_document as_read fields_as_read
    decode_union-error = simp (
      trace-read m.base.trace_id,
      unmarshal_id-read m.id valid fits,
      string_field-trace_field,
      lookup-trace_field "method" m.base.trace_id refl,
      lookup-trace_field "params" m.base.trace_id refl,
      lookup-trace_field "result" m.base.trace_id refl,
    )

  code-read : (n : ℤ) → Fits64 n → code_field (some (as_read lib (int n))) ≡ ok n
  unfolding as_read
  code-read n fits = rw (fits, code_field) refl

  data-read :
      (v : Any)
      → or_nil (lookup "data" (fields (fields_as_read lib (to_fields (data_field v)))))
        ≡ as_read lib v
  unfolding lookup data_field as_read fields_as_read
  data-read nil = refl
  data-read _ = refl

  pub decode_error_body-read :
      (e : RpcError)
      → Fits64 e.code
      → decode_error_body (as_read lib (error_document e))
        ≡ ok (record e { data' = as_read lib e.data' })
  unfolding decode_error_body error_document lookup as_read fields_as_read
  decode_error_body-read e fits = rw (code-read e.code fits, data-read e.data', ◌>>=◌) refl
