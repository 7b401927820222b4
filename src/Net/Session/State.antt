-- ===== src/Net/Session/State.antt =====
-- The state of one session of a server: net/http2_session.go and, with the same shape, net/ws_server.go,
-- net/tcp_server.go and net/vsock_server.go. A goroutine that handles a message is a task; what it does up
-- to the next send to a channel is one action, and so is that send. What was sent to a channel, and what
-- was received and written, is part of the state. Contexts and logging are left out.
use jsoff.Base.{
  String, Bool, true, false, Option, none, some, List, [], ◌∷◌, ◌++◌, ltb, length, if◌then◌else◌,
}
use jsoff.Result.{GoError, Result, ok, err, panic, context}
use jsoff.Message.{Message}
use jsoff.Net.Http1.{Response}
use jsoff.Net.Actor.{RpcRequest, Actor}
use jsoff.Net.Actor.Feed.{Feedback}

-- What the four servers differ in: the name of the transport, the end of a written text, whether each message
-- is handled in a goroutine of its own, and whether the session loses its server when it ends.
pub record Server (W : Type 0) : Type 0 where
  pub actor : Actor W
  pub transport : String
  pub line_end : String
  pub spawn : Bool
  pub drops_server : Bool

-- A message of `msgReceived`, or one that the application sent by `Send`.
pub data Outgoing : Type 0 where
  answer : Message → Outgoing
  pushed : Message → Outgoing

abbrev pub message_of : Outgoing → Message
message_of (answer m) = m
message_of (pushed m) = m

-- A goroutine that is to feed what was decoded, or that is about to send to a channel.
pub data Task : Type 0 where
  to_feed : Result Message → Task
  to_send : Outgoing → Task
  to_end : Option GoError → Task

-- `received` and `written` have the last one first; `lost` are messages that were taken from the send
-- channel and not written.
pub record Session (W : Type 0) : Type 0 where
  pub receiving : Bool
  pub sending : Bool
  pub is_open : Bool
  pub has_server : Bool
  pub crashed : Bool
  pub tasks : List Task
  pub send_channel : List Outgoing
  pub done : List (Option GoError)
  pub received : List (Result Message)
  pub written : List (Outgoing × String)
  pub lost : List Outgoing
  pub world : W

-- How an action ends: it waits at a full or empty channel, or it leaves a state.
pub data Turn (A : Type 0) : Type 0 where
  waits : Turn A
  goes_on : A → Turn A

-- What is said of the state that is left, if the action does not wait.
abbrev pub OnTurn : {A : Type 0} → (A → Type 0) → Turn A → Type 0
OnTurn P waits = Unit
OnTurn P (goes_on d) = P d

abbrev pub fresh : {W : Type 0} → W → Session W
fresh w = record {
  receiving = true;
  sending = true;
  is_open = true;
  has_server = true;
  crashed = false;
  tasks = [];
  send_channel = [];
  done = [];
  received = [];
  written = [];
  lost = [];
  world = w;
}

module _ {W : Type 0} where
  abbrev pub add_task : Task → Session W → Session W
  add_task t s = record s { tasks = s.tasks ++ t ∷ [] }

  -- A message was decoded, or could not be: the task that handles it.
  abbrev pub take_in : Result Message → Session W → Session W
  take_in r s = record s { tasks = s.tasks ++ to_feed r ∷ []; received = r ∷ s.received }

  -- The receiving loop ends with a value for the channel `done`.
  abbrev pub stop_receiving : Option GoError → Session W → Session W
  stop_receiving e s = record s { receiving = false; tasks = s.tasks ++ to_end e ∷ [] }

  -- `Send`, which has a goroutine of the application wait while the channel is full.
  unfoldable pub send : Message → Session W → Turn (Session W)
  send msg s =
      if ltb (length s.send_channel) 100
      then goes_on (record s { send_channel = s.send_channel ++ pushed msg ∷ [] })
      else waits

  abbrev pub session_request : Server W → String → Message → RpcRequest
  session_request server id msg = record {
    msg = msg;
    transport_type = server.transport;
    session = some id;
  }

  -- After `Feed`; a panic that reaches the goroutine ends the program. Both branches on the kind of the
  -- message send it to the channel.
  abbrev pub after_feed : Feedback × W → Session W → Session W
  after_feed (ok none, w) s = record s { world = w }
  after_feed (ok (some resmsg), w) s = record s {
    world = w;
    tasks = s.tasks ++ to_send (answer resmsg) ∷ [];
  }
  after_feed (err e, w) s = record s {
    world = w;
    tasks = s.tasks ++ to_end (some (context "actor.Feed" e)) ∷ [];
  }
  after_feed (panic r, w) s = record s { world = w; crashed = true }

pub data Protocol : Type 0 where
  websocket : Protocol
  http2 : Protocol

-- What a handler of HTTP requests does: it answers, or it opens a session of a protocol.
pub data Opened (W : Type 0) : Type 0 where
  answered : Result Response × W → Opened W
  opened : Protocol → Session W → Opened W
