-- ===== src/Net/Http1/Client.antt =====
-- net/http1_client.go: calls over HTTP/1. What the library's client makes of a request is the parameter
-- `Http`, over a world that it shares with the servers; making that client once, with its timeout, is left out.
pub mod Relay
mod Tests
use Prim.Native.String
use jsoff.Base.{
  ℕ, String, Bool, not, ◌==◌, nat_eq, Option, none, some, List, [], ◌∷◌, ◌++◌, lookup, store,
  if◌then◌else◌,
}
use jsoff.Value.{Any}
use jsoff.Result.{GoError, Result, ok, err, panic, ◌>>=◌, context, simple, wrapped, rpc}
use jsoff.Message.{
  Message, RequestMessage, request, result, error, Header, trace_id, set_trace_id, is_result,
  must_result, must_error,
}
use jsoff.Message.Document.{decode_message, document}
use jsoff.Net.Http1.{Json, content_type, all_headers, x_headers, decode_options}

-- A POST.
pub record HttpRequest : Type 0 where
  pub header : List (String × String)
  pub body : String

-- A response, with what reading its body gives.
pub record HttpReply : Type 0 where
  pub status : ℕ
  pub header : Header
  pub body : Result String

-- What `Do` returns: a response, or an error, which may be a timeout.
pub data Exchange : Type 0 where
  replied : HttpReply → Exchange
  timed_out : GoError → Exchange
  do_failed : GoError → Exchange

-- The library's client: the error of a request that it cannot make, and `Do`.
pub record Http (W : Type 0) : Type 0 where
  pub refusal : Option GoError
  pub run : HttpRequest → W → Exchange × W

-- The result of a call, the caller's message after it, and the world.
pub record Called (A W : Type 0) : Type 0 where
  pub answer : Result A
  pub message : Message
  pub world : W

abbrev pub wrap {ℓ} : {A : Type ℓ} → String → Result A → Result A
wrap text (err e) = err (context text e)
wrap text r = r

-- `Add` of a header.
abbrev pub or_new : Option Header → Header
or_new none = []
or_new (some h) = h

abbrev pub values_of : Option (List String) → List String
values_of none = []
values_of (some vs) = vs

abbrev pub add_header : String × String → Option Header → Option Header
add_header (name, value) h =
    some (store name (values_of (lookup name (or_new h)) ++ value ∷ []) (or_new h))

abbrev pub add_headers : List (String × String) → Option Header → Option Header
add_headers [] h = h
add_headers (p ∷ ps) h = add_headers ps (add_header p h)

-- The headers of the response become those of a result or an error.
abbrev pub with_headers : List (String × String) → Message → Message
with_headers ps (result m) =
    result (record m { response_header = add_headers ps m.response_header })
with_headers ps (error m) = error (record m { response_header = add_headers ps m.response_header })
with_headers ps m = m

abbrev pub trace_header : String → List (String × String)
trace_header trace = if trace == "" then [] else ("X-Trace-Id", trace) ∷ []

abbrev pub request_header : String → Header → List (String × String)
request_header trace extra =
    trace_header trace ++ content_type ∷ ("Accept", "application/json") ∷ all_headers extra

abbrev pub abnormal {ℓ} : {A : Type ℓ} → HttpReply → String → Result A
abnormal reply body = err (
    context "abnormal response"
      (wrapped (record { status_code = reply.status; header = reply.header; body = body })))

abbrev pub rpc_context : RequestMessage → String
rpc_context reqmsg = String.◌++◌ "RPC(" (String.◌++◌ reqmsg.method ")")

module _ (json : Json) where
  -- The part of `request` on the response.
  unfoldable pub read_reply : String → HttpReply → Result Message
  read_reply trace reply =
      if not (nat_eq reply.status 200)
      then wrap "read from response" reply.body >>= abnormal reply
      else (do
        text ← wrap "ioutil.ReadAll" reply.body
        respmsg ← json.read text >>= decode_message decode_options
        ok (set_trace_id (with_headers (x_headers reply.header) respmsg) trace))

  abbrev pub read_exchange : String → Exchange → Result Message
  read_exchange trace (replied reply) = read_reply trace reply
  read_exchange trace (timed_out e) =
      err (context "request timeout" (simple 408 "\"request timeout\""))
  read_exchange trace (do_failed e) = err (context "http Do" e)

  -- The part of `Send` on the response, which does not read the body.
  abbrev pub read_sent : Exchange → Result {0} Unit
  read_sent (replied reply) = if not (nat_eq reply.status 200) then abnormal reply "" else ok tt
  read_sent (timed_out e) = err (context "http Do" e)
  read_sent (do_failed e) = err (context "http Do" e)

  module _ {W : Type 0} (http : Http W) (extra_header : Header) where
    abbrev pub run_request : String → String → W → Result Exchange × W
    run_request trace marshaled w = elim http.refusal [
      | some e ↦ (err (context "http.NewRequestWithContext" e), w)
      | none ↦
          let (exchange, w') =
            http.run (record { header = request_header trace extra_header; body = marshaled }) w in
          (ok exchange, w')
    ]

    abbrev pub with_text : String → Result String → W → Result Exchange × W
    with_text trace (ok marshaled) w = run_request trace marshaled w
    with_text trace (err e) w = (err e, w)
    with_text trace (panic r) w = (panic r, w)

    -- What `request` and `Send` share: the caller's message loses its trace id, which goes into a header.
    unfoldable pub post : {A : Type 0} → (Exchange → Result A) → Message → W → Called A W
    post read msg w =
        let bare = set_trace_id msg "" in
        let (exchange, w') = with_text (trace_id msg) (json.print (document bare)) w in
        record { answer = exchange >>= read; message = bare; world = w' }

    -- `request`
    unfoldable pub http_request : RequestMessage → W → Called Message W
    http_request reqmsg w = post (read_exchange reqmsg.base.trace_id) (request reqmsg) w

    -- `Send`
    unfoldable pub http_send : Message → W → Called (Unit {0}) W
    http_send msg w = post read_sent msg w

    -- `Call`
    unfoldable pub http_call : RequestMessage → W → Called Message W
    http_call reqmsg w =
        let called = http_request reqmsg w in
        record called { answer = wrap (rpc_context reqmsg) called.answer }

    abbrev pub unwrapped : {A : Type 0} → (Any → Result A) → RequestMessage → Message → Result A
    unwrapped decode_interface reqmsg resmsg =
        if is_result resmsg
        then wrap (rpc_context reqmsg) (must_result resmsg >>= decode_interface)
        else must_error resmsg >>= λ e. err (rpc e)

    -- `UnwrapCall`; what mapstructure makes of the result is the parameter `decode_interface`.
    unfoldable pub http_unwrap_call :
        {A : Type 0} → (Any → Result A) → RequestMessage → W → Called A W
    http_unwrap_call decode_interface reqmsg w =
        let called = http_call reqmsg w in
        record {
          answer = called.answer >>= unwrapped decode_interface reqmsg;
          message = called.message;
          world = called.world;
        }
