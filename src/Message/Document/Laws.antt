-- ===== src/Message/Document/Laws.antt =====
-- What the decoder lets through.
use jsoff.Base.{
  Bool, false, Option, none, some, List, ◌≡◌, refl, ◌==◌, eq_iff, lookup, arith, Bool-cases,
  Option-cases, inl, inr,
}
use jsoff.Value.{Any, nil, object, fields}
use jsoff.Value.Read.{is_document}
use jsoff.Result.{Result, ok, ◌>>=◌}
use jsoff.Message.{
  Message, request, notify, result, error, set_trace_id, new_request_message, new_notify_message,
  raw_result_message, raw_error_message,
}
use jsoff.Message.Document.{
  unmarshal_id, string_field, raw_field, id_field, MsgUnion, decode_union, decode_params,
  MessageOptions, null_id, decode_as_error, decode_as_result, decode_as_call, decode_message,
  message_of_union, last_branch,
}
use jsoff.Message.Document.RoundTrip.{IsValidId, ParamsFit, IsWellFormed, items-to_items}

unmarshal_id-IsValidId : (v id : Any) → unmarshal_id v ≡ ok id → IsValidId id
unfolding unmarshal_id
unmarshal_id-IsValidId v id h = ground arith

>>=-eq-ok {κ ι} :
    {Value : Type κ} {Next : Type ι} (r : Result Value) (next : Value → Result Next) {y : Next}
    → (r >>= next) ≡ ok y
    → (x : Value) × (r ≡ ok x) × (next x ≡ ok y)
>>=-eq-ok (ok x) next given = (x, refl, given)
>>=-eq-ok _ next given = cc

-- The id of a union that has one is valid, and its params are not null.
abbrev ValidIfSet : Option Any → Type 0
ValidIfSet none = Unit
ValidIfSet (some id) = IsValidId id

id_field-ValidIfSet : (o r : Option Any) → id_field o ≡ ok r → ValidIfSet r
id_field-ValidIfSet none r h = ground arith
id_field-ValidIfSet (some v) none h = tt
id_field-ValidIfSet (some v) (some id) h =
    unmarshal_id-IsValidId v id (let (i, e, e') = >>=-eq-ok (unmarshal_id v) _ h in ground arith)

abbrev NotNull : Option Any → Type 0
NotNull (some nil) = ⊥
NotNull _ = Unit

raw_field-NotNull : (o : Option Any) → NotNull (raw_field o)
raw_field-NotNull none = tt
raw_field-NotNull (some nil) = tt
raw_field-NotNull (some _) = tt

decode_union-fits :
    (doc : Any) (un : MsgUnion) → decode_union doc ≡ ok un → ValidIfSet un.id × NotNull un.params
unfolding decode_union
decode_union-fits nil un h =
    let same_id : none ≡ un.id = ground arith in
    let same_params : none ≡ un.params = ground arith in (rw (← same_id) tt, rw (← same_params) tt)
decode_union-fits (object m) un h =
    let (id, id_ok, h1) = >>=-eq-ok (id_field (lookup "id" (fields m))) _ h in
    let (method, method_ok, h2) = >>=-eq-ok (string_field (lookup "method" (fields m))) _ h1 in
    let (trace, trace_ok, h3) = >>=-eq-ok (string_field (lookup "traceid" (fields m))) _ h2 in
    let same_id : id ≡ un.id = ground arith in
    let same_params : raw_field (lookup "params" (fields m)) ≡ un.params = ground arith in
    (
      rw (← same_id) (id_field-ValidIfSet (lookup "id" (fields m)) id id_ok),
      rw (← same_params) (raw_field-NotNull (lookup "params" (fields m))),
    )
decode_union-fits _ un h = cc

decode_params-fits :
    (o : Option Any) (ps : List Any) (islist : Bool)
    → NotNull o
    → decode_params o ≡ ok (ps, islist)
    → ParamsFit islist ps
unfolding decode_params
decode_params-fits o ps islist h e = ground arith

-- A message that was decoded is well formed, and if it is a request its id is one that the
-- options allow.
abbrev pub IsDecoded : MessageOptions → Message → Type 0
IsDecoded opts (request m) = IsWellFormed (request m) × (null_id opts m.id ≡ false)
IsDecoded opts m = IsWellFormed m

module _ (opts : MessageOptions) (un : MsgUnion) (valid : ValidIfSet un.id) where
  error-IsDecoded : (body : Any) (m : Message) → decode_as_error un body ≡ ok m → IsDecoded opts m
  unfolding decode_as_error set_trace_id raw_error_message
  error-IsDecoded body (request m) h = ground arith
  error-IsDecoded body (notify m) h = ground arith
  error-IsDecoded body (result m) h = ground arith
  error-IsDecoded body (error m) h = ground arith

  result-IsDecoded :
      (value : Any) (m : Message) → decode_as_result opts un value ≡ ok m → IsDecoded opts m
  unfolding decode_as_result set_trace_id raw_result_message
  result-IsDecoded value (request m) h = ground arith
  result-IsDecoded value (notify m) h = ground arith
  result-IsDecoded value (result m) h = ground arith
  result-IsDecoded value (error m) h = ground arith

  call-IsDecoded :
      (m : Message)
      → NotNull un.params
      → (un.method == "") ≡ false
      → decode_as_call opts un ≡ ok m
      → IsDecoded opts m
  unfolding decode_as_call set_trace_id new_request_message new_notify_message
  call-IsDecoded (request m) given named h =
      let ((ps, islist), e, h1) = >>=-eq-ok (decode_params un.params) _ h in
      let fit = decode_params-fits un.params ps islist given e in
      ground (arith, eq_iff un.method "", items-to_items ps)
  call-IsDecoded (notify m) given named h =
      let ((ps, islist), e, h1) = >>=-eq-ok (decode_params un.params) _ h in
      let fit = decode_params-fits un.params ps islist given e in
      ground (arith, eq_iff un.method "", items-to_items ps)
  call-IsDecoded (result m) given named h =
      let ((ps, islist), e, h1) = >>=-eq-ok (decode_params un.params) _ h in ground arith
  call-IsDecoded (error m) given named h =
      let ((ps, islist), e, h1) = >>=-eq-ok (decode_params un.params) _ h in ground arith

module _ (opts : MessageOptions) (un : MsgUnion) (valid : ValidIfSet un.id)
    (given : NotNull un.params) where
  null_result-IsDecoded :
      (o : Option Any) (m : Message) → un.id ≡ o → last_branch un o ≡ ok m → IsDecoded opts m
  unfolding last_branch set_trace_id raw_result_message
  null_result-IsDecoded none m e h = cc
  null_result-IsDecoded (some id) (request m) e h = cc
  null_result-IsDecoded (some id) (notify m) e h = cc
  null_result-IsDecoded (some id) (result m) e h = ground arith
  null_result-IsDecoded (some id) (error m) e h = cc

  message_of_union-IsDecoded : (m : Message) → message_of_union opts un ≡ ok m → IsDecoded opts m
  unfolding message_of_union
  message_of_union-IsDecoded m h = elim (Option-cases un.error) [
    | inr (body, e) ↦ error-IsDecoded opts un valid body m (rw (e, message_of_union) at h)
    | inl e ↦ elim (Option-cases un.result) [
      | inr (value, e') ↦ result-IsDecoded opts un valid value m (rw (e, e', message_of_union) at h)
      | inl e' ↦ elim (Bool-cases (un.method == "")) [
        | inl none_named ↦
            null_result-IsDecoded un.id m refl (rw (e, e', none_named, message_of_union) at h)
        | inr named ↦
            call-IsDecoded opts un valid m given named (rw (e, e', named, message_of_union) at h)
      ]
    ]
  ]

-- What is decoded is well formed, and the id of a decoded request is one that the options allow.
pub decode_message-IsDecoded :
    (opts : MessageOptions) (doc : Any) (m : Message)
    → decode_message opts doc ≡ ok m
    → IsDecoded opts m
unfolding decode_message
decode_message-IsDecoded opts doc m h = elim (Bool-cases (is_document doc)) [
  | inl e ↦
      let (un, decoded, made) = >>=-eq-ok (decode_union doc) _ (rw e at h) in
      let (valid, given) = decode_union-fits doc un decoded in
      message_of_union-IsDecoded opts un valid given m made
  | inr e ↦ cc (rw e at h)
]
