-- ===== src/Net/Streaming/State.antt =====
-- The state of the client of net/streaming_client.go, and what its methods do apart from the transport.
use jsoff.Base.{ℕ, suc, String, Bool, Option, none, some, List, ◌∷◌, is_some, if◌then◌else◌}
use jsoff.Value.{Any, str}
use jsoff.Result.{GoError, Result, ok, err, foreign, err_timeout, ◌>>=◌}
use jsoff.Message.{Message, RequestMessage, must_id, replace_id, to_message, clone}
use jsoff.Net.Streaming.Pending.{
  PendingRequest, PendingRequests, same_id, loaded, store_pending, load_and_delete,
}

-- What `ReadMessage` returns: an error, nothing readable, or a message.
pub data Read : Type 0 where
  failed : GoError → Read
  skipped : Read
  readed : Message → Read

pub record Transport (T : Type 0) : Type 0 where
  pub connect : T → Option GoError × T
  pub close : T → T
  pub connected : T → Bool
  pub read_message : T → Read × T
  pub write_message : Message → T → Option GoError × T

abbrev pub transport_closed : GoError
transport_closed = foreign "streaming closed"

-- `results` are the messages that were sent to result channels, each with the pending request it
-- was sent for, and `closed` the errors that were sent to close channels, the last one first;
-- `close_channel` and `cancel_func` tell whether the field is not nil; `channels` is the number of result channels that were made.
pub record Client (T W : Type 0) : Type 0 where
  pub transport : T
  pub pending_requests : PendingRequests
  pub message_handler : Option (Message → W → W)
  pub connected_handler : Option (W → W)
  pub close_handler : Option (W → W)
  pub cancel_func : Bool
  pub send_channel : Option (List Message)
  pub close_channel : Bool
  pub closed : List (Option GoError)
  pub world : W
  pub results : List (PendingRequest × Message)
  pub channels : ℕ

-- How a pass of a loop ends: it waits at an empty channel, returns, or goes on.
pub data Round (A : Type 0) : Type 0 where
  waits : Round A
  returns : A → Round A
  goes_on : A → Round A

-- How a send to a channel ends; to a nil or full channel it waits.
pub data Sent : Type 0 where
  sent : Sent
  not_sent : GoError → Sent
  blocked : Sent

-- A handler that is nil is not called.
abbrev pub call : {W : Type 0} → Option (W → W) → W → W
call none w = w
call (some handler) w = handler w

abbrev pub call_message_handler : {W : Type 0} → Option (Message → W → W) → Message → W → W
call_message_handler none msg w = w
call_message_handler (some handler) msg w = handler msg w

module _ {T W : Type 0} where
  unfoldable pub on_message : (Message → W → W) → Client T W → Result (Client T W)
  on_message handler c =
      if is_some c.message_handler
      then err (foreign "message handler already exist!")
      else ok (record c { message_handler = some handler })

  unfoldable pub on_connected : (W → W) → Client T W → Result (Client T W)
  on_connected handler c =
      if is_some c.connected_handler
      then err (foreign "connected handler already exist!")
      else ok (record c { connected_handler = some handler })

  unfoldable pub on_close : (W → W) → Client T W → Result (Client T W)
  on_close handler c =
      if is_some c.close_handler
      then err (foreign "close handler already exist!")
      else ok (record c { close_handler = some handler })

  -- Sending a response to the result channel of a pending request; its buffer holds ten.
  abbrev pub deliver : PendingRequest → Message → Client T W → Client T W
  deliver p msg c = record c { results = (p, msg) ∷ c.results }

  unfoldable pub handle_loaded :
      Any → Message → Option PendingRequest → Client T W → Result (Client T W)
  handle_loaded msg_id msg none c =
      ok (record c { world = call_message_handler c.message_handler msg c.world })
  handle_loaded msg_id msg (some pending) c =
      if same_id msg_id pending.reqmsg.id
      then ok (deliver pending msg c)
      else (do resmsg ← replace_id msg pending.reqmsg.id; ok (deliver pending resmsg c))

  unfoldable pub handle_result : Message → Client T W → Result (Client T W)
  handle_result msg c = do
    msg_id ← must_id msg
    handle_loaded msg_id msg (load_and_delete msg_id c.pending_requests).0
        (record c { pending_requests = (load_and_delete msg_id c.pending_requests).1 })

  abbrev pub time_out : Option PendingRequest → Client T W → Client T W
  time_out none c = c
  time_out (some pending) c = deliver pending (to_message err_timeout pending.reqmsg) c

  -- After the sleep.
  unfoldable pub expire : Any → Client T W → Client T W
  expire k c =
      time_out (load_and_delete k c.pending_requests).0
        (record c { pending_requests = (load_and_delete k c.pending_requests).1 })

  -- The first part of `request`: the message to send, with a new id if one is pending with its id.
  unfoldable pub message_to_send : RequestMessage → String → Client T W → Result RequestMessage
  message_to_send reqmsg new_uuid c =
      if loaded reqmsg.id c.pending_requests then clone reqmsg (str new_uuid) else ok reqmsg

  -- The second part: a new channel, and the entry for the id that was chosen.
  unfoldable pub store_request : RequestMessage → Any → Client T W → Client T W
  store_request reqmsg k c = record c {
    pending_requests =
        store_pending k (record { reqmsg = reqmsg; result_channel = c.channels })
          c.pending_requests;
    channels = suc c.channels;
  }
