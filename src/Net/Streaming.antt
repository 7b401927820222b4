-- ===== src/Net/Streaming.antt =====
-- net/streaming_client.go: the client over a streaming transport. `connect`, `reset`, `send` and the request
-- are sequences of actions, and each is what it gives where no other goroutine runs in between; Reach has
-- their actions one by one. A round is one pass of a loop. The
-- transport is a parameter: `T` is its state. Handlers are functions over a world `W`. Of a channel the
-- client has what was sent to it. Context, TLS settings, headers, locks and logging are left out.
mod Pending
mod State
pub mod Table
pub mod Ledger
pub mod Reach
mod Tests
unfoldable pub use Pending.*
unfoldable pub use State.*
use jsoff.Base.{
  ℕ, suc, String, Bool, true, false, not, Option, none, some, List, [], ◌∷◌, ◌++◌, is_some, ltb,
  length, if◌then◌else◌,
}
use Prim.Native.String
use jsoff.Value.{Any, str}
use jsoff.Result.{
  RpcError, GoError, Result, ok, err, panic, foreign, context, rpc, err_timeout, ◌>>=◌,
}
use jsoff.Message.{
  Message, RequestMessage, request, is_result_or_error, is_result, must_id, must_result, must_error,
  replace_id, to_message, clone,
}

module _ {T W : Type 0} (tr : Transport T) where
  abbrev pub connected : Client T W → Bool
  connected c = tr.connected c.transport

  -- The actions of `Reset`, which holds no lock: other goroutines run between any two of them.
  abbrev pub cancel : Client T W → Client T W
  cancel c = record c { cancel_func = false }

  abbrev pub tell_closed : Option GoError → Client T W → Client T W
  tell_closed e c = record c { closed = if c.close_channel then e ∷ c.closed else c.closed }

  abbrev pub drop_close_channel : Client T W → Client T W
  drop_close_channel c = record c { close_channel = false }

  abbrev pub close_transport : Client T W → Client T W
  close_transport c = record c { transport = tr.close c.transport }

  abbrev pub drop_send_channel : Client T W → Client T W
  drop_send_channel c = record c { send_channel = none }

  unfoldable pub reset : Option GoError → Client T W → Client T W
  reset e c = drop_send_channel (close_transport (drop_close_channel (tell_closed e (cancel c))))

  unfoldable pub close : Client T W → Client T W
  close c = if connected c then reset none c else c

  -- The actions of `Connect` after the dial.
  abbrev pub call_connected : Client T W → Client T W
  call_connected c = record c { world = call c.connected_handler c.world }

  abbrev pub set_cancel : Client T W → Client T W
  set_cancel c = record c { cancel_func = true }

  abbrev pub make_send_channel : Client T W → Client T W
  make_send_channel c = record c { send_channel = some [] }

  abbrev pub make_close_channel : Client T W → Client T W
  make_close_channel c = record c { close_channel = true }

  abbrev pub after_connect : Client T W → Option GoError × T → Option GoError × Client T W
  after_connect c (some e, t) = (some e, record c { transport = t })
  after_connect c (none, t) = (
    none,
    make_close_channel
        (make_send_channel (set_cancel (call_connected (record c { transport = t })))),
  )

  unfoldable pub connect : Client T W → Option GoError × Client T W
  connect c = if connected c then (none, c) else after_connect c (tr.connect c.transport)

  abbrev pub call_closed : Client T W → Client T W
  call_closed c = record c { world = call c.close_handler c.world; close_handler = none }

  unfoldable pub handle_error : GoError → Client T W → Client T W
  handle_error e c = call_closed (reset (some e) c)

  abbrev pub put : Message → Option (List Message) → Client T W → Sent × Client T W
  put msg none c = (blocked, c)
  put msg (some queue) c =
      if ltb (length queue) 100
      then (sent, record c { send_channel = some (queue ++ msg ∷ []) })
      else (blocked, c)

  abbrev pub after_connecting : Message → Option GoError × Client T W → Sent × Client T W
  after_connecting msg (some e, c) = (not_sent e, c)
  after_connecting msg (none, c) = put msg c.send_channel c

  -- `Send`: `connect`, which locks, and then, without the lock, the send to the channel.
  unfoldable pub send : Message → Client T W → Sent × Client T W
  send msg c = after_connecting msg (connect c)

  -- The part of `request` between the connection and the send: a message to send, and its entry.
  unfoldable pub register :
      RequestMessage → String → Client T W → Result (RequestMessage × Client T W)
  register reqmsg new_uuid c = do
    sendmsg ← message_to_send reqmsg new_uuid c
    ok (sendmsg, store_request reqmsg sendmsg.id c)

  abbrev pub requested :
      RequestMessage → String → Option GoError × Client T W → Result (Sent × Client T W)
  requested reqmsg new_uuid (some e, c) = ok (not_sent e, c)
  requested reqmsg new_uuid (none, c) = do
    registered ← register reqmsg new_uuid c
    ok (send (request registered.0) registered.1)

  -- `request` up to the select: after the connection, a message to send, its entry, and the send.
  unfoldable pub request_message : RequestMessage → String → Client T W → Result (Sent × Client T W)
  request_message reqmsg new_uuid c = requested reqmsg new_uuid (connect c)

  abbrev pub written : Client T W → Option GoError × T → Round (Client T W)
  written c (some e, t) = returns (handle_error e (record c { transport = t }))
  written c (none, t) = goes_on (record c { transport = t })

  -- A pass of `sendLoop` from its select on; before that it returns if the transport is not
  -- connected. Where the select finds the context done, the loop calls `close` and returns.
  unfoldable pub send_round : Option (List Message) → Client T W → Round (Client T W)
  send_round none c = waits
  send_round (some []) c = waits
  send_round (some (msg ∷ queue)) c =
      let taken = record c { send_channel = some queue } in
      if connected c then written taken (tr.write_message msg c.transport) else returns taken

  abbrev pub received : Client T W → Read × T → Result (Round (Client T W))
  received c (failed e, t) = ok (returns (handle_error e (record c { transport = t })))
  received c (skipped, t) = ok (goes_on (record c { transport = t }))
  received c (readed msg, t) =
      if is_result_or_error msg
      then (do c' ← handle_result msg (record c { transport = t }); ok (goes_on c'))
      else ok (
          goes_on (record c {
            transport = t;
            world = call_message_handler c.message_handler msg c.world;
          }))

  -- A pass of `recvLoop`.
  unfoldable pub recv_round : Client T W → Result (Round (Client T W))
  recv_round c = if connected c then received c (tr.read_message c.transport) else ok (returns c)

-- What the select at the end of `request` takes: the close channel or the result channel.
pub data Selected : Type 0 where
  close_error : Selected
  response : Message → Selected

unfoldable pub await : {T W : Type 0} → Selected → Client T W → Result Message × Client T W
await close_error c = (err transport_closed, record c { close_channel = false })
await (response resmsg) c = (ok resmsg, c)

-- `errors.Wrapf`
abbrev pub wrapped_error : {A : Type 0} → RequestMessage → Result A → Result A
wrapped_error reqmsg (err e) = err (context (String.◌++◌ "RPC(" (String.◌++◌ reqmsg.method ")")) e)
wrapped_error reqmsg r = r

-- `Call` of what `request` returned.
abbrev pub called : RequestMessage → Result Message → Result Message
called reqmsg r = wrapped_error reqmsg r

-- `UnwrapCall`, with the decoding of a result into the caller's value as a parameter.
unfoldable pub unwrap_call :
    {A : Type 0} → (Any → Result A) → RequestMessage → Result Message → Result A
unwrap_call decode_interface reqmsg answer = called reqmsg answer >>= λ resmsg.
    if is_result resmsg
    then must_result resmsg >>= (λ v. wrapped_error reqmsg (decode_interface v))
    else must_error resmsg >>= (λ e. err (rpc e))
