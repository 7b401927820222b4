-- ===== src/Net/Streaming/Reach.antt =====
-- The client's actions in any order: which states they lead to, and what holds in all of them.
pub mod Settled
pub mod Answers
pub mod Serial
pub mod Channel
pub mod Sending
pub mod Dispatch
use jsoff.Base.{
  ℕ, String, Bool, true, false, Option, none, some, List, [], ◌∷◌, ◌≡◌, refl, inl, inr,
  if◌then◌else◌, All, Bool-cases, Option-cases, ltb, arith,
}
use mathlib.Core.Path.{subst}
use jsoff.Value.{Any, str}
use jsoff.Result.{Result, GoError, ok, err, panic, ◌>>=◌}
use jsoff.Message.{Message, RequestMessage, request, is_result_or_error, clone, new_request_message}
use jsoff.Net.Streaming.{
  call_message_handler, call_connected, set_cancel, make_send_channel, make_close_channel, cancel,
  tell_closed, drop_close_channel, close_transport, drop_send_channel, call_closed, register,
  Transport, Client, Round, waits, returns, goes_on, Read, failed, skipped, readed, Sent, sent,
  not_sent, blocked, loaded, handle_result, expire, message_to_send, store_request, received,
  recv_round, send_round, written, connect, connected, after_connect, send, after_connecting, put,
  request_message, reset, close, handle_error, Selected, close_error, response, await, on_message,
  on_connected, on_close,
}

abbrev pub after_round : {A : Type 0} → A → Round A → A
after_round a waits = a
after_round a (returns b) = b
after_round a (goes_on b) = b

module _ {T W : Type 0} (tr : Transport T) where
  -- One action of one goroutine. The actions of `Connect`, `Send`, `Reset` and `handleError` come one by one, and so
  -- may those of the passes of the loops (`takes`, `handles`, `calls_message`), so those of other goroutines stand
  -- between them in any order; `connects`, `receives` and `writes` are runs that nothing interrupts. In a step
  -- `drifts` the transport changes, by a dial, a read or a write whose further actions are steps of their own or
  -- from outside, and in a step `sets_handlers` handlers change.
  pub data Quiet (c : Client T W) : Client T W → Type 0 where
    receives : (r : Round (Client T W)) → recv_round tr c ≡ ok r → Quiet c (after_round c r)
    writes : Quiet c (after_round c (send_round tr c.send_channel c))
    handles : (msg : Message) (d : Client T W) → handle_result msg c ≡ ok d → Quiet c d
    calls_message :
        (msg : Message)
        → Quiet c (record c { world = call_message_handler c.message_handler msg c.world })
    takes :
        (msg : Message) (queue : List Message)
        → c.send_channel ≡ some (msg ∷ queue)
        → Quiet c (record c { send_channel = some queue })
    puts : (msg : Message) → Quiet c (put tr msg c.send_channel c).1
    connects : Quiet c (connect tr c).1
    calls_connected : Quiet c (call_connected tr c)
    sets_cancel : Quiet c (set_cancel tr c)
    makes_send_channel : Quiet c (make_send_channel tr c)
    makes_close_channel : Quiet c (make_close_channel tr c)
    cancels : Quiet c (cancel tr c)
    tells_closed : (e : Option GoError) → Quiet c (tell_closed tr e c)
    drops_close_channel : Quiet c (drop_close_channel tr c)
    closes_transport : Quiet c (close_transport tr c)
    drops_send_channel : Quiet c (drop_send_channel tr c)
    calls_closed : Quiet c (call_closed tr c)
    awaits : (s : Selected) → Quiet c (await s c).1
    expires : (k : Any) → Quiet c (expire k c)
    drifts : (t : T) → Quiet c (record c { transport = t })
    sets_handlers :
        (m : Option (Message → W → W)) (h g : Option (W → W))
        → Quiet c (record c { message_handler = m; connected_handler = h; close_handler = g })

  -- A request whose two visits to the table are one action, with a new id that is not in use.
  pub data Step (c : Client T W) : Client T W → Type 0 where
    quiet : {d : Client T W} → Quiet c d → Step c d
    requests :
        (m : RequestMessage) (new_uuid : String) (sendmsg : RequestMessage) (d : Client T W)
        → loaded (str new_uuid) c.pending_requests ≡ false
        → register tr m new_uuid c ≡ ok (sendmsg, d)
        → Step c d

  -- A request that may store its entry below any id: what it looked up may be out of date by then.
  pub data RacingStep (c : Client T W) : Client T W → Type 0 where
    quiet : {d : Client T W} → Quiet c d → RacingStep c d
    stores : (m : RequestMessage) (k : Any) → RacingStep c (store_request m k c)
