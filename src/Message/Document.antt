-- ===== src/Message/Document.antt =====
-- parse.go, messagemarshal.go and the methods `Interface` of messageimpl.go: a message as a JSON
-- document and back. `document` is the value that `encoding/json` prints as text; what it reads of a text
-- has a json.Number for every number (Value/Read), and only such documents are decoded. Keys that equal a field's name only up
-- to case, which `encoding/json` accepts too, are outside the model.
mod Print
pub mod Laws
pub mod RoundTrip
use jsoff.Base.{
  ℕ, ℤ, pos, String, Bool, true, false, not, ◌&&◌, ◌||◌, Option, none, some, List, [], ◌∷◌, ◌++◌,
  ◌==◌, lookup, if◌then◌else◌,
}
use jsoff.Value.{
  Any, nil, bool, int, float64, number, str, list, object, items, to_items, fields, to_fields,
}
use jsoff.Value.Number.{parse_int64}
use jsoff.Value.Read.{is_document}
use jsoff.Result.{RpcError, Result, ok, err, decode, foreign, ◌>>=◌}
use jsoff.Message.{
  Message, RequestMessage, NotifyMessage, ResultMessage, ErrorMessage, request, notify, result,
  error, set_trace_id, new_request_message, new_notify_message, raw_result_message,
  raw_error_message,
}
unfoldable pub use Print.*

-- What `encoding/json` answers where a value does not fit the Go type.
abbrev pub mismatch {ℓ} : {A : Type ℓ} → Result A
mismatch = err (foreign "json")

-- `msgIdT.UnmarshalJSON`: null, an integer of 64 bits, or a string.
unfoldable pub unmarshal_id : Any → Result Any
unmarshal_id nil = ok nil
unmarshal_id (number text) = elim (parse_int64 text) [ some n ↦ ok (int n) | none ↦ mismatch ]
unmarshal_id (str s) = ok (str s)
unmarshal_id _ = mismatch

-- A string field: null and a missing key leave it empty.
abbrev pub string_field : Option Any → Result String
string_field none = ok ""
string_field (some nil) = ok ""
string_field (some (str s)) = ok s
string_field (some _) = mismatch

-- A field of type *json.RawMessage: null and a missing key leave it nil.
abbrev pub raw_field : Option Any → Option Any
raw_field none = none
raw_field (some nil) = none
raw_field (some v) = some v

abbrev pub id_field : Option Any → Result (Option Any)
id_field none = ok none
id_field (some v) = do id ← unmarshal_id v; ok (some id)

-- The `isSet` of the id is whether it is there.
pub record MsgUnion : Type 0 where
  pub id : Option Any
  pub result : Option Any
  pub error : Option Any
  pub params : Option Any
  pub method : String
  pub trace_id : String

-- The decoding of an object into `msgUnion`; null leaves every field as it was.
unfoldable pub decode_union : Any → Result MsgUnion
decode_union nil =
    ok
      (record { id = none; result = none; error = none; params = none; method = ""; trace_id = "" })
decode_union (object m) = do
  id ← id_field (lookup "id" (fields m))
  method ← string_field (lookup "method" (fields m))
  trace ← string_field (lookup "traceid" (fields m))
  ok (record {
    id = id;
    result = raw_field (lookup "result" (fields m));
    error = raw_field (lookup "error" (fields m));
    params = raw_field (lookup "params" (fields m));
    method = method;
    trace_id = trace;
  })
decode_union _ = mismatch

abbrev pub code_field : Option Any → Result ℤ
code_field none = ok (pos 0)
code_field (some nil) = ok (pos 0)
code_field (some (number text)) = elim (parse_int64 text) [ some n ↦ ok n | none ↦ mismatch ]
code_field (some _) = mismatch

abbrev pub or_nil : Option Any → Any
or_nil none = nil
or_nil (some v) = v

-- The decoding of an error body into an `RPCError`.
unfoldable pub decode_error_body : Any → Result RpcError
decode_error_body (object m) = do
  code ← code_field (lookup "code" (fields m))
  message ← string_field (lookup "message" (fields m))
  ok (record { code = code; message = message; data' = or_nil (lookup "data" (fields m)) })
decode_error_body _ = mismatch

-- `decodeParams`: the params, and whether they are a list. The value was read with `UseNumber`, so its numbers are
-- json.Number already, here and in `decode_as_result`.
unfoldable pub decode_params : Option Any → Result (List Any × Bool)
decode_params none = err (decode "no params field")
decode_params (some (list xs)) = ok (items xs, true)
decode_params (some v) = ok (v ∷ [], false)

-- `MessageOptions`
pub record MessageOptions : Type 0 where
  pub id_not_null : Bool

abbrev pub is_nil : Any → Bool
is_nil nil = true
is_nil _ = false

-- The id is set, it is null, and the options forbid that.
abbrev pub null_id : MessageOptions → Any → Bool
null_id opts id = is_nil id && opts.id_not_null

decode_as_error : MsgUnion → Any → Result Message
decode_as_error un body = elim un.result [
  | some _ ↦ err (decode "result and error cannot co exist")
  | none ↦ (do
    errbody ← decode_error_body body
    elim un.id [
      | none ↦ err (decode "no message id")
      | some id ↦ ok (set_trace_id (error (raw_error_message id errbody none)) un.trace_id)
    ])
]

decode_as_result : MessageOptions → MsgUnion → Any → Result Message
decode_as_result opts un value = elim un.id [
  | none ↦ ok (set_trace_id (result (raw_result_message nil value none)) un.trace_id)
  | some id ↦
      if null_id opts id
      then err (decode "Result.id cannot be null")
      else ok (set_trace_id (result (raw_result_message id value none)) un.trace_id)
]

-- `reqmsg.paramsAreList = islist`
abbrev pub set_islist : RequestMessage → Bool → RequestMessage
set_islist m islist = record m { params_are_list = islist }

abbrev pub set_islist_notify : NotifyMessage → Bool → NotifyMessage
set_islist_notify m islist = record m { params_are_list = islist }

decode_as_call : MessageOptions → MsgUnion → Result Message
decode_as_call opts un = do
  decoded ← decode_params un.params
  elim un.id [
    | some id ↦ if null_id opts id then err (decode "Request.id cannot be null") else (do
      reqmsg ← new_request_message id un.method (list (to_items decoded.0))
      ok (set_trace_id (request (set_islist reqmsg decoded.1)) un.trace_id))
    | none ↦ (do
      ntfmsg ← new_notify_message un.method (list (to_items decoded.0))
      ok (set_trace_id (notify (set_islist_notify ntfmsg decoded.1)) un.trace_id))
  ]

-- The last branch of `DecodeMessage`: neither an error, a result nor a method.
last_branch : MsgUnion → Option Any → Result Message
last_branch un (some id) = ok (set_trace_id (result (raw_result_message id nil none)) un.trace_id)
last_branch un none = err (decode "not a jsonrpc message")

-- `DecodeMessage` after the decoding into `msgUnion`.
unfoldable pub message_of_union : MessageOptions → MsgUnion → Result Message
unfolding decode_as_error decode_as_result decode_as_call last_branch
message_of_union opts un = elim un.error [
  | some body ↦ decode_as_error un body
  | none ↦ elim un.result [
    | some value ↦ decode_as_result opts un value
    | none ↦ if not (un.method == "") then decode_as_call opts un else last_branch un un.id
  ]
]

-- `DecodeMessage` of what is read of a text with `UseNumber`; a value that no text has is refused.
unfoldable pub decode_message : MessageOptions → Any → Result Message
unfolding decode_union message_of_union is_document
decode_message opts doc =
    if is_document doc then (do un ← decode_union doc; message_of_union opts un) else mismatch
