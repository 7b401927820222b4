-- ===== src/Net/Http1.antt =====
-- net/http1_server.go: the handler of HTTP/1 requests. The text of JSON is a library's: `Json` reads
-- and prints documents. What was read of the body is an argument, `body`; a response is what is written
-- before the handler returns, with the headers as they are given. Logging is left out.
pub mod Laws
pub mod Client
mod Tests
use jsoff.Base.{
  ℕ, String, Bool, true, false, not, ◌&&◌, ◌||◌, ◌==◌, nat_eq, Option, none, some, List, [], ◌∷◌,
  ◌++◌, codes, if◌then◌else◌,
}
use jsoff.Value.{Any, nil, str, list, object, to_items, to_fields}
use jsoff.Result.{
  GoError, HttpResponse, Result, ok, err, panic, an_error, foreign, ◌>>=◌, as_simple, as_wrapped,
  err_invalid_request, err_parse_message, err_internal_error,
}
use jsoff.Message.{
  Message, RequestMessage, request, notify, result, error, Header, trace_id, set_trace_id, must_id,
  new_error_message, new_result_message, new_error_message_from_id,
}
use jsoff.Message.Document.{MessageOptions, decode_message, document}
use jsoff.Net.Actor.{RpcRequest, Actor}
use jsoff.Net.Actor.Public.{public_schemas}
use jsoff.Net.Actor.Feed.{Feedback, feed}

pub record Json : Type 0 where
  pub read : String → Result Any
  pub print : Any → Result String

pub record Response : Type 0 where
  pub status : ℕ
  pub header : List (String × String)
  pub body : String

abbrev pub content_type : String × String
content_type = ("Content-Type", "application/json")

-- `strings.HasPrefix(strings.ToUpper(header), "X-")`
abbrev pub is_x : List ℕ → Bool
is_x (a ∷ b ∷ ns) = (nat_eq a 88 || nat_eq a 120) && nat_eq b 45
is_x _ = false

abbrev pub each_value : String → List String → List (String × String)
each_value name [] = []
each_value name (v ∷ vs) = (name, v) ∷ each_value name vs

abbrev pub all_headers : Header → List (String × String)
all_headers [] = []
all_headers ((name, values) ∷ h) = each_value name values ++ all_headers h

unfoldable pub x_headers : Header → List (String × String)
x_headers [] = []
x_headers ((name, values) ∷ h) =
    let rest = x_headers h in if is_x (codes name) then each_value name values ++ rest else rest

abbrev pub passed_headers : Message → List (String × String)
passed_headers (result m) = elim m.response_header [ none ↦ [] | some h ↦ x_headers h ]
passed_headers (error m) = elim m.response_header [ none ↦ [] | some h ↦ x_headers h ]
passed_headers _ = []

abbrev pub decode_options : MessageOptions
decode_options = record { id_not_null = false }

-- Encoding that does not fail, or panics.
abbrev pub must_print : Result String → Result String
must_print (err e) = panic (an_error e)
must_print r = r

-- The text of an error is dropped where printing it fails.
abbrev pub or_empty : Result String → String
or_empty (ok s) = s
or_empty _ = ""

unfoldable pub write_failure : GoError → Response
write_failure e = elim (as_simple e) [
  | some (code, body) ↦ record { status = code; header = []; body = body }
  | none ↦ elim (as_wrapped e) [
    | some r ↦ record { status = r.status_code; header = all_headers r.header; body = r.body }
    | none ↦ record { status = 500; header = []; body = "internal server error" }
  ]
]

abbrev pub is_discover : Message → Bool
is_discover (request m) = m.method == "rpc.discover"
is_discover _ = false

abbrev pub objects : List (List (String × Any)) → List Any
objects [] = []
objects (m ∷ ms) = object (to_fields m) ∷ objects ms

module _ (json : Json) where
  -- `WriteMessage`
  unfoldable pub write_message : Message → ℕ → Result Response
  write_message msg code = do
    data' ← must_print (json.print (document msg))
    ok (record { status = code; header = content_type ∷ []; body = data' })

  abbrev pub write_error : Result Message → ℕ → Result Response
  write_error made code = do errmsg ← made; write_message errmsg code

  -- The text of the answer, or that of an internal error if it cannot be printed.
  abbrev pub answer_text : Result String → Message → Result String
  answer_text (ok data') msg = ok data'
  answer_text (panic r) msg = panic r
  answer_text (err e) msg = do
    id ← must_id msg
    ok (
        or_empty
          (json.print (document (new_error_message_from_id id (trace_id msg) err_internal_error))))

  -- The header X-Trace-Id is set after the header was written, so it is not part of the response.
  unfoldable pub write_answer : Message → Message → Result Response
  write_answer msg resmsg = do
    data' ← answer_text (json.print (document (set_trace_id resmsg ""))) msg
    ok (record { status = 200; header = content_type ∷ passed_headers resmsg; body = data' })

  unfoldable pub write_feedback : Message → Feedback → Result Response
  write_feedback msg (err e) = ok (write_failure e)
  write_feedback msg (panic r) = panic r
  write_feedback msg (ok (some resmsg)) = write_answer msg resmsg
  write_feedback msg (ok none) = do
    ok_msg ← new_result_message none (str "ok")
    write_message ok_msg 200

  module _ {W : Type 0} (decode_template : Message → Result (List (String × Any))) where
    unfoldable pub write_discovery : Actor W → Message → Result Response
    write_discovery a msg = do
      resmsg ←
          new_result_message (some msg)
            (object (to_fields (("methods", list (to_items (objects (public_schemas a)))) ∷ [])))
      write_message resmsg 200

    unfoldable pub serve_message : Actor W → Message → W → Result Response × W
    serve_message a msg w =
        if is_discover msg
        then (write_discovery a msg, w)
        else (let (feedback, w') =
              feed decode_template a (record { msg = msg; transport_type = "http"; session = none })
                w in
            (write_feedback msg feedback, w'))

    abbrev pub serve_parsed : Actor W → Result Message → W → Result Response × W
    serve_parsed a (err e) w = (write_error (new_error_message none err_parse_message) 400, w)
    serve_parsed a (panic r) w = (panic r, w)
    serve_parsed a (ok msg) w = serve_message a msg w

    abbrev pub serve_body : Actor W → Result String → W → Result Response × W
    serve_body a (err e) w = (write_error (new_error_message none err_invalid_request) 400, w)
    serve_body a (panic r) w = (panic r, w)
    serve_body a (ok text) w = serve_parsed a (json.read text >>= decode_message decode_options) w

    -- `ServeHTTP`
    unfoldable pub serve_http1 :
        Actor W → (method : String) → Result String → W → Result Response × W
    serve_http1 a method body w =
        if not (method == "POST")
        then (ok (record { status = 405; header = []; body = "Method not allowed" }), w)
        else serve_body a body w
