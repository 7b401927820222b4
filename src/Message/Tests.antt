-- ===== src/Message/Tests.antt =====
-- Runs of the message functions, and the theorems about them at concrete inputs.
use jsoff.Base.{pos, true, false, none, some, [], ◌∷◌, ◌≡◌, ◌≢◌, refl, lookup}
use jsoff.Value.{Any, nil, int, number, str, list, object, item, end, to_fields}
use jsoff.Value.Number.{parse_int64}
use jsoff.Value.Read.{is_document, as_read, items_as_read}
use jsoff.Value.Read.Samples.{literals, decimal}
use jsoff.Result.{ok, err, decode}
use jsoff.Message.{
  Message, RequestMessage, request, result, mk_request, must_id, clone, new_request_message,
  new_result_message, raw_result_message, raw_error_message, set_trace_id,
}
use jsoff.Message.Laws.{shown, clone-shows-list}
use jsoff.Message.Document.{
  MessageOptions, document, decode_message, decode_union, decode_error_body, decode_params,
  unmarshal_id, message_of_union,
}
use jsoff.Message.Document.RoundTrip.{IsWellFormed, decode_message-document}
use jsoff.Message.Document.Laws.{IsDecoded, decode_message-IsDecoded}

-- A name that unfolds the decoder.
decoder : Unit {0}
unfolding decode_message is_document decode_union decode_error_body decode_params unmarshal_id
    message_of_union document lookup parse_int64 new_request_message raw_result_message
    raw_error_message set_trace_id
decoder = tt

abbrev strict : MessageOptions
strict = record { id_not_null = true }

abbrev lenient : MessageOptions
lenient = record { id_not_null = false }

-- A request whose only param stands alone.
abbrev ping : RequestMessage
ping = record {
  base = record { kind = mk_request; trace_id = "t1" };
  id = str "a1";
  method = "ping";
  params = int (pos 7) ∷ [];
  params_are_list = false;
}

abbrev ping_document : Any
ping_document = object (
    to_fields (
      ("method", str "ping")
      ∷ ("id", str "a1")
      ∷ ("params", number "7")
      ∷ ("traceid", str "t1")
      ∷ []))

ping_named : ping.method ≢ ""
ping_named = λ h. cc

ping-IsWellFormed : IsWellFormed (request ping)
ping-IsWellFormed = (refl, tt, ping_named, tt)

decodes_ping :
    decode_message strict ping_document ≡ ok (request (record ping { params = number "7" ∷ [] }))
unfolding decoder
decodes_ping = refl

-- A number is a valid id if it is an integer.
refuses_half :
    decode_message lenient (object (to_fields (("id", number "1.5") ∷ ("result", number "1") ∷ [])))
    ≢ ok (request ping)
unfolding decoder
refuses_half = λ h. cc

refuses_null_id :
    decode_message strict (object (to_fields (("id", nil) ∷ ("result", number "1") ∷ [])))
    ≡ err (decode "Result.id cannot be null")
unfolding decoder
refuses_null_id = refl

refuses_both :
    decode_message lenient (
      object (
        to_fields
          (("id", number "1") ∷ ("result", number "1") ∷ ("error", object (to_fields [])) ∷ [])))
    ≡ err (decode "result and error cannot co exist")
unfolding decoder
refuses_both = refl

-- Null ids and null results: this document is accepted whatever the options say of ids.
accepts_null_result :
    decode_message strict (object (to_fields (("id", nil) ∷ ("result", nil) ∷ [])))
    ≡ ok (result (raw_result_message nil nil none))
unfolding decoder
accepts_null_result = refl

decode_message-document_example :
    decode_message strict (as_read literals (document (request ping)))
    ≡ ok (request (record ping { params = number "7" ∷ [] }))
unfolding items_as_read decimal
decode_message-document_example =
    decode_message-document literals strict (request ping) ping-IsWellFormed (tt, tt) refl

decode_message-IsDecoded_example :
    IsDecoded strict (request (record ping { params = number "7" ∷ [] }))
decode_message-IsDecoded_example =
    decode_message-IsDecoded strict ping_document
      (request (record ping { params = number "7" ∷ [] })) decodes_ping

abbrev cloned : RequestMessage
cloned = record ping { id = int (pos 9); params_are_list = true }

clones_ping : clone ping (int (pos 9)) ≡ ok cloned
unfolding clone new_request_message
clones_ping = refl

clone-shows-list_example :
    (shown (document (request ping)) ≡ some (int (pos 7)))
    × (shown (document (request cloned)) ≡ some (list (item (int (pos 7)) end)))
clone-shows-list_example =
    clone-shows-list ping (int (pos 7)) (int (pos 9)) cloned refl refl clones_ping

abbrev pong : Message
pong = result (record {
  base = record { kind = 2; trace_id = "t1" };
  id = str "a1";
  result = str "pong";
  response_header = none;
})

answers_ping : new_result_message (some (request ping)) (str "pong") ≡ ok pong
unfolding new_result_message must_id raw_result_message set_trace_id
answers_ping = refl
