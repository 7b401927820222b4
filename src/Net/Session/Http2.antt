-- ===== src/Net/Session/Http2.antt =====
-- net/http2_server.go and net/http2_session.go: a session over the body of an HTTP/2 request and its
-- response. The decoding of HTTP/2 is a library's.
use jsoff.Base.{String, Bool, [], false, not, ◌&&◌, Option, List, if◌then◌else◌}
use jsoff.Value.{Any}
use jsoff.Result.{GoError, Result, ok}
use jsoff.Message.{Message}
use jsoff.Net.Http1.{Json, Response}
use jsoff.Net.Actor.{Actor}
use jsoff.Net.Session.{
  Server, Session, Outgoing, Turn, Next, stream_receive, msg_received, send_pass, end_session,
  fresh, Opened, answered, opened, http2,
}

module _ {W : Type 0} where
  abbrev pub server : Bool → Actor W → Server W
  server spawn a = record {
    actor = a;
    transport = "http2";
    line_end = "\n";
    spawn = spawn;
    drops_server = false;
  }

  module _ (a : Actor W) (spawn : Bool) where
    abbrev pub recv_loop : Next → Session W → Session W
    recv_loop = stream_receive

    abbrev pub received :
        (Message → Result (List (String × Any))) → String → Result Message → Session W → Session W
    received decode_template = msg_received decode_template (server spawn a)

    abbrev pub send_loop : Json → Option GoError → Session W → List Outgoing → Turn (Session W)
    send_loop = send_pass (server spawn a)

    abbrev pub session_end : String → Session W → Session W
    session_end = end_session (server spawn a)

  -- `ServeHTTP` up to the loops; `http1` is the handler of HTTP/1, which serves what is no HTTP/2.
  unfoldable pub serve_http2 :
      (use_http2c proto_2 flushes : Bool) → (http1 : W → Result Response × W) → W → Opened W
  serve_http2 use_http2c proto_2 flushes http1 w =
      if not use_http2c && not proto_2
      then answered (http1 w)
      else if flushes
      then opened http2 (fresh w)
      else answered (ok (record { status = 400; header = []; body = "http2 not supported" }), w)
