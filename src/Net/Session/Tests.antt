-- ===== src/Net/Session/Tests.antt =====
-- Runs of sessions that read, answer and write one request, of one that ends too early, and the theorems
-- about sessions and the gateway at concrete inputs.
use jsoff.Base.{
  ℕ, map, String, true, false, none, List, [], ◌∷◌, ◌≡◌, ◌≢◌, ◌↔◌, refl, lookup, Reaches, start,
  later,
}
use jsoff.Value.Number.{parse_int64}
use jsoff.Result.{Result, ok}
use jsoff.Message.{
  request, new_request_message, set_trace_id, is_response, is_request, is_notify, must_method,
  must_params, new_result_message,
}
use jsoff.Message.Document.{
  document, decode_message, decode_union, decode_params, unmarshal_id, message_of_union,
}
use jsoff.Net.Http1.{Response}
use jsoff.Net.Actor.Feed.{feed, feed_children, feed_handler, recover_call_handler, wrap_result}
use jsoff.Net.Samples.{hello, hello_document, json, map_of, template, greeter, greeter-TreeBehaves}
use jsoff.Net.Session.{
  Server, Session, Task, Turn, waits, to_feed, fresh, goes_on, document_read, text_frame,
  stream_receive, ws_receive, run_task, msg_received, send_pass, end_session, opened, answered,
  http2, websocket,
}
use jsoff.Net.Session.Steps.{Step, stream_reads}
use jsoff.Net.Session.Tcp
use jsoff.Net.Session.Ws
use jsoff.Net.Session.Http2
use jsoff.Net.Session.Order.{Ordered}
use jsoff.Net.Session.Order.Kept.{session-Ordered}
use jsoff.Net.Session.Balance.{Balanced}
use jsoff.Net.Session.Balance.Kept.{session-Balanced}
use jsoff.Net.Gateway.{Incoming, serve_gateway, serve_gateway-opens}

abbrev tcp : Server ℕ
tcp = Tcp.server greeter

abbrev at_start : Session ℕ
at_start = fresh 0

abbrev read_one : Session ℕ
read_one = stream_receive (document_read (ok hello_document)) at_start

reads_one : Reaches (Step json template tcp "s1") at_start read_one
reads_one =
    later start (stream_reads (document_read (ok hello_document)) refl (refl, λ no_spawn. refl))

session-Balanced_example : Balanced read_one
session-Balanced_example =
    session-Balanced json template tcp "s1" (λ msg. (map_of (document msg), refl))
      greeter-TreeBehaves 0 read_one reads_one

-- The first task runs.
abbrev run_first : List Task → Session ℕ → Turn (Session ℕ)
run_first [] s = waits
run_first (t ∷ ts) s = run_task template tcp "s1" t (record s { tasks = ts })

abbrev and_then : {A : Type 0} → Turn (Session ℕ) → (Session ℕ → Turn A) → Turn A
and_then waits k = waits
and_then (goes_on s) k = k s

-- The texts that are written when the message was read, fed, sent to the channel and taken from it.
abbrev greeting : Turn (List String)
greeting = and_then (run_first read_one.tasks read_one) (λ fed.
    and_then (run_first fed.tasks fed) (λ queued.
      and_then (send_pass tcp json none queued queued.send_channel)
        (λ s. goes_on (map (λ p. p.1) s.written))))

greets_back : greeting ≡ goes_on ("printed\n" ∷ [])
unfolding stream_receive decode_message decode_union decode_params unmarshal_id message_of_union
    lookup parse_int64 new_request_message set_trace_id run_task msg_received send_pass feed
    feed_children feed_handler recover_call_handler is_response is_request is_notify must_method
    must_params wrap_result new_result_message
greets_back = refl

abbrev ws : Server ℕ
ws = Ws.server true greeter

-- A text that is read when the session has ended, and one that was read before and is handled then.
late_text : (ws_receive json (text_frame "hello") (end_session ws "s1" at_start)).crashed ≡ true
unfolding ws_receive end_session
late_text = refl

late_task :
    and_then
      (run_task template ws "s1" (to_feed (ok (request hello))) (end_session ws "s1" at_start))
      (λ s. goes_on s.crashed)
    ≡ goes_on true
unfolding run_task msg_received end_session
late_task = refl

-- A server of HTTP/2 that handles each message before it reads the next.
abbrev in_turn : Server ℕ
in_turn = Http2.server false greeter

reads_in_turn : Reaches (Step json template in_turn "s1") at_start read_one
reads_in_turn =
    later start (stream_reads (document_read (ok hello_document)) refl (refl, λ no_spawn. refl))

session-Ordered_example : Ordered read_one
session-Ordered_example =
    session-Ordered json template in_turn "s1" (λ msg. (map_of (document msg), refl))
      greeter-TreeBehaves refl 0 read_one reads_in_turn

abbrev modern : Incoming
modern = record { proto_2 = true; upgrade = ""; refusal = none; flushes = true }

abbrev plain_page : ℕ → Result Response × ℕ
plain_page w = (ok (record { status = 200; header = []; body = "page" }), w)

serve_gateway-opens_example :
    ((serve_gateway (λ serve. serve) plain_page false modern 0 ≡ opened http2 at_start)
      ↔ ((modern.proto_2 ≡ true) × (modern.flushes ≡ true)))
    × ((serve_gateway (λ serve. serve) plain_page false modern 0 ≡ opened websocket at_start)
        ↔ ((modern.proto_2 ≡ false) × (modern.upgrade ≡ "websocket") × (modern.refusal ≡ none)))
    × (modern.proto_2 ≡ false
        → modern.upgrade ≢ "websocket"
        → serve_gateway (λ serve. serve) plain_page false modern 0 ≡ answered (plain_page 0))
serve_gateway-opens_example = serve_gateway-opens (λ serve. serve) plain_page modern 0
