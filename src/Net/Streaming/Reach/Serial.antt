-- ===== src/Net/Streaming/Reach/Serial.antt =====
-- A client whose operations run one after the other, each to its end before the next begins.
use jsoff.Base.{String, Option, true, ◌≡◌}
use jsoff.Value.{Any}
use jsoff.Result.{GoError, ok}
use jsoff.Message.{Message, RequestMessage}
use jsoff.Net.Streaming.{
  Transport, Client, Round, Sent, recv_round, send_round, connect, connected, send, request_message,
  reset, close, Selected, await, expire,
}
use jsoff.Net.Streaming.Reach.{after_round}

module _ {T W : Type 0} (tr : Transport T) where
  -- In a step `drifts` the transport changes from outside, and does not connect by that; in a step
  -- `sets_handlers` handlers change.
  pub data SerialStep (c : Client T W) : Client T W → Type 0 where
    receives : (r : Round (Client T W)) → recv_round tr c ≡ ok r → SerialStep c (after_round c r)
    writes : SerialStep c (after_round c (send_round tr c.send_channel c))
    sends : (msg : Message) → SerialStep c (send tr msg c).1
    connects : SerialStep c (connect tr c).1
    closes : SerialStep c (close tr c)
    resets : (e : Option GoError) → SerialStep c (reset tr e c)
    awaits : (s : Selected) → SerialStep c (await s c).1
    expires : (k : Any) → SerialStep c (expire k c)
    drifts :
        (t : T)
        → (tr.connected t ≡ true → connected tr c ≡ true)
        → SerialStep c (record c { transport = t })
    sets_handlers :
        (m : Option (Message → W → W)) (h g : Option (W → W))
        → SerialStep c (record c { message_handler = m; connected_handler = h; close_handler = g })
    requests :
        (m : RequestMessage) (new_uuid : String) (out : Sent) (d : Client T W)
        → request_message tr m new_uuid c ≡ ok (out, d)
        → SerialStep c d
