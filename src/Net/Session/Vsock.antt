-- ===== src/Net/Session/Vsock.antt =====
-- net/vsock_server.go: a session over a vsock connection. Listening and accepting are left out.
use jsoff.Base.{String, true, false, Option, List}
use jsoff.Value.{Any}
use jsoff.Result.{GoError, Result}
use jsoff.Message.{Message}
use jsoff.Net.Http1.{Json}
use jsoff.Net.Actor.{Actor}
use jsoff.Net.Session.{
  Server, Session, Outgoing, Turn, Next, stream_receive, msg_received, send_pass, end_session,
}

module _ {W : Type 0} where
  abbrev pub server : Actor W → Server W
  server a = record {
    actor = a;
    transport = "vsock";
    line_end = "\n";
    spawn = true;
    drops_server = false;
  }

  module _ (a : Actor W) where
    abbrev pub recv_loop : Next → Session W → Session W
    recv_loop = stream_receive

    abbrev pub received :
        (Message → Result (List (String × Any))) → String → Result Message → Session W → Session W
    received decode_template = msg_received decode_template (server a)

    abbrev pub send_loop : Json → Option GoError → Session W → List Outgoing → Turn (Session W)
    send_loop = send_pass (server a)

    abbrev pub session_end : String → Session W → Session W
    session_end = end_session (server a)
