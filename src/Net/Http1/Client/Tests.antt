-- ===== src/Net/Http1/Client/Tests.antt =====
-- The theorems about calls through the client and the handler, for an actor that greets and one that is busy.
use jsoff.Base.{ℕ, suc, String, map, lookup, none, some, true, List, [], ◌∷◌, ◌≡◌, refl, pos, arith}
use jsoff.Value.{Any, nil, number, int}
use jsoff.Value.Number.{parse_int64}
use jsoff.Value.Read.{as_read, items_as_read}
use jsoff.Value.Read.Samples.{literals, decimal}
use jsoff.Value.Read.Text.{print_value, read_value}
use jsoff.Message.Document.RoundTrip.{read_message}
use jsoff.Net.Http1.Laws.{over_http}
use jsoff.Result.{
  GoError, Result, ok, err, context, wrapped, foreign, as_simple, as_wrapped, as_rpc,
}
use jsoff.Message.{
  Message, RequestMessage, mk_request, request, result, mk_result, Header, set_trace_id,
  is_response, is_request, is_notify, must_method, must_params, new_result_message,
}
use jsoff.Message.Document.{document, trace_field}
use jsoff.Net.Actor.{RpcRequest, plain, Reply, Actor, actor, no_children}
use jsoff.Net.Actor.Feed.{feed, feed_children, feed_handler, recover_call_handler, wrap_result}
use jsoff.Net.Http1.{Json, write_failure, x_headers, content_type, passed_headers, all_headers}
use jsoff.Net.Http1.Client.{http_call, with_headers}
use jsoff.Net.Http1.Client.Relay.{bare, Travels, over, call-feeds, call-relays}
use jsoff.Net.Samples.{hello, template}

-- A request with a number, and the answer with that number.
abbrev ask : RequestMessage
ask = record hello { params = int (pos 7) ∷ [] }

abbrev seven : Message
seven = result (record {
  base = record { kind = mk_result; trace_id = "" };
  id = int (pos 1);
  result = number "7";
  response_header = none;
})

abbrev json : Json
json = record { read = read_value; print = λ doc. ok (print_value doc) }

abbrev carry : List (String × String) → Header
carry ps = map (λ p. (p.0, p.1 ∷ [])) ps

ask-Travels : Travels literals json (bare (request ask))
unfolding set_trace_id document trace_field parse_int64 decimal print_value read_value as_read
ask-Travels = (
  ((refl, tt, (λ e. cc), tt), (refl, tt)),
  (print_value (document (bare (request ask))), refl, refl),
)

seven-Travels : Travels literals json (bare seven)
unfolding set_trace_id document trace_field parse_int64 decimal print_value read_value as_read
seven-Travels = (((refl, tt, refl), refl), (print_value (document (bare seven)), refl, refl))

-- The actor answers the first param.
abbrev first_param : List Any → Any
first_param [] = nil
first_param (v ∷ vs) = v

abbrev echoes : RpcRequest → List Any → ℕ → Result Reply × ℕ
echoes req params w = (ok (plain (first_param params)), suc w)

abbrev echo : Actor ℕ
echo =
    actor
      (record {
        validate_schema = true;
        recover_from_panic = true;
        method_handlers = ("hello", record { callback = echoes; schema = none }) ∷ [];
        missing_handler = none;
        close_handler = none;
      })
      no_children

-- The request as the handler reads it.
abbrev asked : Message
asked =
    request (record hello {
      base = record { kind = mk_request; trace_id = "" };
      params = number "7" ∷ [];
    })

asked_read : read_message literals (bare (request ask)) ≡ asked
unfolding set_trace_id items_as_read as_read decimal
asked_read = refl

echoed :
    feed template echo (over_http (read_message literals (bare (request ask)))) 0
    ≡ (ok (some seven), 1)
unfolding set_trace_id lookup feed feed_children feed_handler recover_call_handler is_response
    is_request is_notify must_method must_params wrap_result new_result_message items_as_read
    decimal
echoed = refl

call-feeds_example :
    http_call json (over literals carry (foreign "EOF") json template echo) [] ask 0 ≡ record {
      answer = ok (
          set_trace_id
            (with_headers (x_headers (carry (content_type ∷ passed_headers seven))) (bare seven))
            "t1");
      message = bare (request ask);
      world = 1;
    }
unfolding set_trace_id as_read
call-feeds_example =
    call-feeds literals carry (foreign "EOF") json template echo [] ask seven 0 1 refl ask-Travels
      echoed seven-Travels

abbrev busy : GoError
busy =
    wrapped (record { status_code = 503; header = ("Retry-After", "5" ∷ []) ∷ []; body = "busy" })

abbrev refuses : RpcRequest → List Any → ℕ → Result Reply × ℕ
refuses req params w = (err (context "upstream" busy), suc w)

abbrev refuser : Actor ℕ
refuser =
    actor
      (record {
        validate_schema = true;
        recover_from_panic = true;
        method_handlers = ("hello", record { callback = refuses; schema = none }) ∷ [];
        missing_handler = none;
        close_handler = none;
      })
      no_children

busy_refused :
    feed template refuser (over_http (read_message literals (bare (request ask)))) 0 ≡ (err busy, 1)
unfolding set_trace_id lookup feed feed_children feed_handler recover_call_handler is_response
    is_request is_notify must_method must_params wrap_result as_rpc as_wrapped items_as_read decimal
busy_refused = refl

call-relays_example :
    (e' : GoError) × ((http_call json
        (over literals carry (foreign "EOF") json template refuser)
        []
        ask
        0).answer
      ≡ err e')
    × (write_failure e'
        ≡ record (write_failure busy) { header = all_headers (carry (write_failure busy).header) })
unfolding write_failure as_simple as_wrapped
call-relays_example =
    call-relays literals carry (foreign "EOF") json template refuser [] ask busy 0 1 refl
      ask-Travels busy_refused (λ e. ground arith)
