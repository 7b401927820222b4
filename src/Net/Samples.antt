-- ===== src/Net/Samples.antt =====
-- A request, the reader and printer of its text, and an actor that answers it, for the tests.
use jsoff.Base.{
  ℕ, suc, String, true, ◌==◌, none, List, [], ◌∷◌, ◌≡◌, refl, inl, inr, pos, if◌then◌else◌,
  Bool-cases, lookup,
}
use jsoff.Value.Read.{is_document}
use jsoff.Value.{Any, int, number, str, list, object, fields, to_fields, to_items}
use jsoff.Value.Number.{parse_int64}
use jsoff.Result.{Result, ok, err, foreign}
use jsoff.Message.{Message, RequestMessage, request, mk_request, set_trace_id, new_request_message}
use jsoff.Message.Document.{
  decode_message, document, decode_union, decode_params, unmarshal_id, message_of_union,
}
use jsoff.Net.Actor.{RpcRequest, Reply, plain, Actor, actor, no_children}
use jsoff.Net.Actor.Feed.Answer.{TreeBehaves}
use jsoff.Net.Http1.{Json, decode_options}

abbrev pub hello : RequestMessage
hello = record {
  base = record { kind = mk_request; trace_id = "t1" };
  id = int (pos 1);
  method = "hello";
  params = [];
  params_are_list = true;
}

abbrev pub hello_document : Any
hello_document = object (
    to_fields (
      ("method", str "hello")
      ∷ ("id", number "1")
      ∷ ("params", list (to_items []))
      ∷ ("traceid", str "t1")
      ∷ []))

abbrev pub json : Json
json = record {
  read = λ text. if text == "hello" then ok hello_document else err (foreign "bad json");
  print = λ doc. ok "printed";
}

abbrev pub map_of : Any → List (String × Any)
map_of (object m) = fields m
map_of _ = []

abbrev pub template : Message → Result (List (String × Any))
template msg = ok (map_of (document msg))

-- The world counts the calls.
abbrev pub greets : RpcRequest → List Any → ℕ → Result Reply × ℕ
greets req params w = (ok (plain (str "hi")), suc w)

abbrev pub greeter : Actor ℕ
greeter =
    actor
      (record {
        validate_schema = true;
        recover_from_panic = true;
        method_handlers = ("hello", record { callback = greets; schema = none }) ∷ [];
        missing_handler = none;
        close_handler = none;
      })
      no_children

pub greeter-TreeBehaves : TreeBehaves greeter
unfolding lookup
greeter-TreeBehaves = (
  (
    λ method. elim (Bool-cases ("hello" == method)) [
      | inl e ↦ rw e (λ req params w. tt)
      | inr e ↦ rw e tt
    ],
    tt,
  ),
  tt,
)

pub reads_hello : json.read "hello" ≡ ok hello_document
reads_hello = refl

pub decodes_hello : decode_message decode_options hello_document ≡ ok (request hello)
unfolding decode_message is_document decode_union decode_params unmarshal_id message_of_union lookup
    parse_int64 new_request_message set_trace_id
decodes_hello = refl
