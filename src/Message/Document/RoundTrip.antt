-- ===== src/Message/Document/RoundTrip.antt =====
-- Decoding the document of a message gives the message back.
mod Union
use jsoff.Base.{
  String, Bool, true, false, Option, none, some, List, [], ◌∷◌, ◌≡◌, refl, ap, sym, ◌≢◌, ◌==◌,
  eq_iff, lookup, arith, Bool-cases, inl, inr,
}
use jsoff.Value.{
  Any, nil, bool, int, float64, number, str, list, object, other, items, to_items, fields,
  to_fields,
}
use jsoff.Value.Read.{Literals, as_read, as_read-is_document}
use jsoff.Result.{RpcError, ok, ◌>>=◌}
use jsoff.Message.{
  Message, RequestMessage, NotifyMessage, ResultMessage, ErrorMessage, request, notify, result,
  error, set_trace_id, new_request_message, new_notify_message, raw_result_message,
  raw_error_message, mk_request, mk_notify, mk_result, mk_error,
}
use jsoff.Message.Document.{
  trace_field, data_field, params_value, error_document, document, unmarshal_id, string_field,
  raw_field, MsgUnion, decode_union, decode_error_body, decode_params, MessageOptions, null_id,
  decode_message, message_of_union, or_nil,
}
pub use Union.*

module _ (opts : MessageOptions) where
  message_of_union-request :
      (m : RequestMessage)
      → IsWellFormed (request m)
      → IdAllowed opts (request m)
      → message_of_union opts (union_of_request m) ≡ ok (request m)
  unfolding message_of_union new_request_message set_trace_id
  message_of_union-request m (kind, valid, named, fit) allowed =
      simp
        (
          ne-empty m.method named,
          decode_params-value m.params_are_list m.params fit,
          allowed,
          items-to_items,
        )
        (ap (λ k. ok (request (record m { base = record m.base { kind = k } }))) (sym kind))

  message_of_union-notify :
      (m : NotifyMessage)
      → IsWellFormed (notify m)
      → message_of_union opts (union_of_notify m) ≡ ok (notify m)
  unfolding message_of_union new_notify_message set_trace_id
  message_of_union-notify m (kind, named, fit) =
      simp
        (
          ne-empty m.method named,
          decode_params-value m.params_are_list m.params fit,
          items-to_items,
        )
        (ap (λ k. ok (notify (record m { base = record m.base { kind = k } }))) (sym kind))

  -- A null result is read by the last branch of the decoder.
  as_result :
      (m : ResultMessage) (v : Option Any)
      → raw_field (some m.result) ≡ v
      → IsWellFormed (result m)
      → IdAllowed opts (result m)
      → message_of_union opts (record (union_of_result m) { result = v }) ≡ ok (result m)
  unfolding message_of_union set_trace_id raw_result_message
  as_result m v e (kind, valid, header) allowed = ground arith

  message_of_union-error :
      (lib : Literals) (m : ErrorMessage)
      → IsWellFormed (error m)
      → Fits64 lib m.error.code
      → message_of_union opts
          (record (union_of_error m) { error = some (as_read lib (error_document m.error)) })
        ≡ ok (error (read_error lib m))
  unfolding message_of_union set_trace_id raw_error_message
  message_of_union-error lib m (kind, valid, header) fits =
      rw (decode_error_body-read lib m.error fits) (ground arith)

module _ (lib : Literals) (opts : MessageOptions) where
  decode-as_read :
      (v : Any) (un : MsgUnion) (m : Message)
      → decode_union (as_read lib v) ≡ ok un
      → message_of_union opts un ≡ ok m
      → decode_message opts (as_read lib v) ≡ ok m
  unfolding decode_message
  decode-as_read v un m h h' = rw (as_read-is_document lib v, h, ◌>>=◌) h'

  -- Of the text that encoding/json prints for a well-formed message, whose integers that are read as such fit into
  -- 64 bits and whose param, if it stands alone, has a type that the model knows, the decoder gives that message
  -- with json.Number in place of the numbers in its params, result or data, unless the options forbid its null id.
  pub decode_message-document :
      (m : Message)
      → IsWellFormed m
      → Fits lib m
      → IdAllowed opts m
      → decode_message opts (as_read lib (document m)) ≡ ok (read_message lib m)
  decode_message-document (request m) (kind, valid, named, fit) (small, plain) allowed =
      decode-as_read (document (request m)) _ _ (decode_union-request lib m valid small) (
        message_of_union-request opts (read_request lib m)
          (kind, valid, named, read-ParamsFit lib m.params_are_list m.params fit plain) allowed)
  decode_message-document (notify m) (kind, named, fit) plain allowed =
      decode-as_read (document (notify m)) _ _ (decode_union-notify lib m) (
        message_of_union-notify opts (read_notify lib m)
          (kind, named, read-ParamsFit lib m.params_are_list m.params fit plain))
  decode_message-document (result m) wf small allowed =
      decode-as_read (document (result m)) _ _ (decode_union-result lib m wf.1 small)
        (as_result opts (read_result lib m) _ refl wf allowed)
  decode_message-document (error m) wf (small, code) allowed =
      decode-as_read (document (error m)) _ _ (decode_union-error lib m wf.1 small)
        (message_of_union-error opts lib m wf code)
