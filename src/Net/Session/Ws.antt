-- ===== src/Net/Session/Ws.antt =====
-- net/ws_server.go: a session over a WebSocket. The upgrade of the connection is a library's.
use jsoff.Base.{String, Bool, true, Option, none, some, List}
use Prim.Native.String
use jsoff.Value.{Any}
use jsoff.Result.{GoError, Result, ok}
use jsoff.Message.{Message}
use jsoff.Net.Http1.{Json, Response}
use jsoff.Net.Actor.{Actor}
use jsoff.Net.Session.{
  Server, Session, Outgoing, Turn, Frame, ws_receive, msg_received, send_pass, end_session, fresh,
  Opened, answered, opened, websocket,
}

module _ {W : Type 0} where
  abbrev pub server : Bool → Actor W → Server W
  server spawn a = record {
    actor = a;
    transport = "websocket";
    line_end = "";
    spawn = spawn;
    drops_server = true;
  }

  module _ (a : Actor W) (spawn : Bool) where
    abbrev pub recv_loop : Json → Frame → Session W → Session W
    recv_loop = ws_receive

    abbrev pub received :
        (Message → Result (List (String × Any))) → String → Result Message → Session W → Session W
    received decode_template = msg_received decode_template (server spawn a)

    abbrev pub send_loop : Json → Option GoError → Session W → List Outgoing → Turn (Session W)
    send_loop = send_pass (server spawn a)

    abbrev pub session_end : String → Session W → Session W
    session_end = end_session (server spawn a)

  -- `ServeHTTP` up to the loops; `refusal` is what the library has answered if the upgrade failed. A status
  -- is written once, so that of the library stays, and the text comes after its body.
  unfoldable pub serve_ws : (refusal : Option Response) → W → Opened W
  serve_ws none w = opened websocket (fresh w)
  serve_ws (some r) w =
      answered (ok (record r { body = String.◌++◌ r.body "ws upgrade failed" }), w)
