-- ===== src/Net/Session.antt =====
-- A session of a server: its two loops, the handling of messages, and its end. See Session/State for
-- the state and what an action is.
mod State
pub mod Steps
pub mod Ws
pub mod Http2
pub mod Tcp
pub mod Vsock
pub mod Balance
pub mod Order
mod Tests
unfoldable pub use State.*
use jsoff.Base.{
  ℕ, String, Bool, true, false, not, Option, none, some, List, [], ◌∷◌, ◌++◌, ltb, length,
  if◌then◌else◌,
}
use Prim.Native.String
use jsoff.Value.{Any}
use jsoff.Result.{GoError, Result, ok, err, panic, context, foreign, ◌>>=◌}
use jsoff.Message.{Message}
use jsoff.Message.Document.{document, decode_message}
use jsoff.Net.Http1.{Json, decode_options}
use jsoff.Net.Actor.{Actor, handle_close}
use jsoff.Net.Actor.Feed.{feed}

-- What a read of a WebSocket gives: a text, a message of another type, or an error.
pub data Frame : Type 0 where
  text_frame : String → Frame
  other_frame : Frame
  read_failed : GoError → Frame

-- What the decoder of a stream gives: the next document or an error, or its end.
pub data Next : Type 0 where
  document_read : Result Any → Next
  end_of_stream : Next

module _ {W : Type 0} where
  -- A pass of the receiving loop of a WebSocket session; the text is parsed by the task. The loop reads
  -- an option of the server, which is a nil pointer after the end.
  unfoldable pub ws_receive : Json → Frame → Session W → Session W
  ws_receive json (text_frame text) s =
      if s.has_server
      then take_in (json.read text >>= decode_message decode_options) s
      else record s { crashed = true }
  ws_receive json other_frame s = s
  ws_receive json (read_failed e) s = stop_receiving (some (context "ws.ReadMessage()" e)) s

  abbrev pub decoded : Result Message → Session W → Session W
  decoded (ok msg) s = take_in (ok msg) s
  decoded (err e) s = stop_receiving (some e) s
  decoded (panic r) s = record s { crashed = true }

  -- The same of the other sessions, which decode before they hand a message on.
  unfoldable pub stream_receive : Next → Session W → Session W
  stream_receive (document_read r) s = decoded (r >>= decode_message decode_options) s
  stream_receive end_of_stream s = stop_receiving none s

  module _ (decode_template : Message → Result (List (String × Any))) (server : Server W)
      (id : String) where
    -- `msgReceived` and `msgBytesReceived` up to the first send to a channel. Without its server the session has
    -- a nil pointer there.
    unfoldable pub msg_received : Result Message → Session W → Session W
    msg_received (err e) s = add_task (to_end (some (foreign "bad jsonrpc message"))) s
    msg_received (panic r) s = record s { crashed = true }
    msg_received (ok msg) s =
        if s.has_server
        then after_feed (feed decode_template server.actor (session_request server id msg) s.world)
            s
        else record s { crashed = true }

    -- The next action of a task; the state is that without the task.
    unfoldable pub run_task : Task → Session W → Turn (Session W)
    run_task (to_feed r) s = goes_on (msg_received r s)
    run_task (to_send o) s =
        if ltb (length s.send_channel) 100
        then goes_on (record s { send_channel = s.send_channel ++ o ∷ [] })
        else waits
    run_task (to_end e) s =
        if ltb (length s.done) 10 then goes_on (record s { done = s.done ++ e ∷ [] }) else waits

  -- The text of a message is written, or the loop ends with the message lost.
  abbrev pub write_text :
      Server W → Outgoing → Result String → Option GoError → Session W → Session W
  write_text server o (ok text) none s = record s {
    written = (o, String.◌++◌ text server.line_end) ∷ s.written;
  }
  write_text server o (ok text) (some e) s = record s { sending = false; lost = o ∷ s.lost }
  write_text server o (err e) failure s = record s { sending = false; lost = o ∷ s.lost }
  write_text server o (panic r) failure s = record s { crashed = true; lost = o ∷ s.lost }

  -- A pass of `sendLoop` whose select takes a message; `failure` is what the write returns. The connection
  -- that the loop tests for nil is never nil.
  unfoldable pub send_pass :
      Server W → Json → Option GoError → Session W → List Outgoing → Turn (Session W)
  send_pass server json failure s [] = waits
  send_pass server json failure s (o ∷ rest) = goes_on (
      write_text server o (json.print (document (message_of o))) failure
        (record s { send_channel = rest }))

  -- `wait` returns, for a value in `done` or a context that is done, and the deferred functions run.
  unfoldable pub end_session : Server W → String → Session W → Session W
  end_session server id s = record s {
    is_open = false;
    world = handle_close server.actor id s.world;
    has_server = not server.drops_server;
  }
