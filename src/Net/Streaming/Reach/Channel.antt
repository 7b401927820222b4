-- ===== src/Net/Streaming/Reach/Channel.antt =====
-- A connected client has a send channel, if its operations run one after the other.
use jsoff.Base.{
  true, false, Option, none, some, List, [], ◌∷◌, ◌≡◌, refl, sym, ap, ◌∙◌, inl, inr, Bool-cases,
  ltb, length, is_some, String, Option-cases,
}
use mathlib.Core.Path.{subst}
use jsoff.Value.{Any}
use jsoff.Result.{>>=-OnOk, OnOk, GoError, Result, ok, err, panic}
use jsoff.Message.{Message, RequestMessage, request, is_result_or_error, replace_id, must_id}
use jsoff.Net.Streaming.{
  Transport, Client, PendingRequest, Read, failed, skipped, readed, connected, connect,
  after_connect, close, reset, handle_error, send, after_connecting, put, written, send_round,
  received, recv_round, handle_result, handle_loaded, expire, store_request, request_message,
  requested, register, await, close_error, response, message_to_send, load_and_delete, same_id,
}
use jsoff.Net.Streaming.Reach.{after_round}
use jsoff.Net.Streaming.Reach.Serial.{
  SerialStep, requests, receives, writes, sends, connects, closes, resets, awaits, expires, drifts,
  sets_handlers,
}

-- What the client relies on: a transport is connected after a successful `Connect` and not after
-- `Close`; reading and writing do not connect it, and neither does a failed `Connect`.
pub record TransportLaws {T : Type 0} (tr : Transport T) : Type 0 where
  pub connect-refused :
      (t : T) (e : GoError)
      → (tr.connect t).0 ≡ some e
      → tr.connected (tr.connect t).1 ≡ true
      → tr.connected t ≡ true
  pub close-closed : (t : T) → tr.connected (tr.close t) ≡ false
  pub read-quiet : (t : T) → tr.connected (tr.read_message t).1 ≡ true → tr.connected t ≡ true
  pub write-quiet :
      (m : Message) (t : T) → tr.connected (tr.write_message m t).1 ≡ true → tr.connected t ≡ true

nothing_said : {A : Type 0} (r : Result A) → OnOk (λ _. Unit) r
nothing_said (ok a) = tt
nothing_said (err e) = tt
nothing_said (panic r) = tt

module _ {T W : Type 0} (tr : Transport T) where
  abbrev pub HasChannel : Client T W → Type 0
  HasChannel c = connected tr c ≡ true → is_some c.send_channel ≡ true

module _ {T W : Type 0} (tr : Transport T) (laws : TransportLaws tr) where
  -- The two fields did not change, or only by a loss of the connection.
  abbrev Keeps : Client T W → Client T W → Type 0
  Keeps c d =
      (connected tr d ≡ true → connected tr c ≡ true)
      × (is_some d.send_channel ≡ is_some c.send_channel)

  read_on :
      (c : Client T W) (t : T) {r : Read}
      → tr.read_message c.transport ≡ (r, t)
      → tr.connected t ≡ true
      → connected tr c ≡ true
  read_on c t same on = laws.read-quiet c.transport (ap (λ o. tr.connected o.1) same ∙ on)

  kept : (c d : Client T W) → Keeps c d → HasChannel tr c → HasChannel tr d
  kept c d (on, same) h e = same ∙ h (on e)

  connect-HasChannel : (c : Client T W) → HasChannel tr c → HasChannel tr (connect tr c).1
  unfolding connect
  connect-HasChannel c h = elim (Bool-cases (connected tr c)) [
    | inl e ↦ rw e h
    | inr e ↦ rw e (after (tr.connect c.transport) refl)
  ]
    where
      after :
          (o : Option GoError × T)
          → tr.connect c.transport ≡ o
          → HasChannel tr (after_connect tr c o).1
      after (some e, t) same on = h (
          laws.connect-refused c.transport e (ap (λ o. o.0) same)
            (ap (λ o. tr.connected o.1) same ∙ on))
      after (none, t) same on = refl

  reset-HasChannel : (e : Option GoError) (c : Client T W) → HasChannel tr (reset tr e c)
  unfolding reset
  reset-HasChannel e c on = absurd (cc (sym on ∙ laws.close-closed c.transport))

  handle_error-HasChannel : (e : GoError) (c : Client T W) → HasChannel tr (handle_error tr e c)
  unfolding handle_error
  handle_error-HasChannel e c = reset-HasChannel (some e) c

  put-HasChannel :
      (msg : Message) (queue : Option (List Message)) (c : Client T W)
      → HasChannel tr c
      → HasChannel tr (put tr msg queue c).1
  put-HasChannel msg none c h = h
  put-HasChannel msg (some queue) c h = elim (Bool-cases (ltb (length queue) 100)) [
    | inl e ↦ rw e (λ _. refl)
    | inr e ↦ rw e h
  ]

  send-HasChannel :
      (msg : Message) (c : Client T W) → HasChannel tr c → HasChannel tr (send tr msg c).1
  unfolding send
  send-HasChannel msg c h = after (connect tr c) (connect-HasChannel c h)
    where
      after :
          (o : Option GoError × Client T W)
          → HasChannel tr o.1
          → HasChannel tr (after_connecting tr msg o).1
      after (some e, d) k = k
      after (none, d) k = put-HasChannel msg d.send_channel d k

  send_round-HasChannel :
      (queue : Option (List Message)) (c : Client T W)
      → c.send_channel ≡ queue
      → HasChannel tr c
      → HasChannel tr (after_round c (send_round tr queue c))
  unfolding send_round
  send_round-HasChannel none c same h = h
  send_round-HasChannel (some []) c same h = h
  send_round-HasChannel (some (msg ∷ queue)) c same h = elim (Bool-cases (connected tr c)) [
    | inl e ↦ rw e (after (tr.write_message msg c.transport))
    | inr e ↦ rw e (λ _. refl)
  ]
    where
      after :
          (o : Option GoError × T)
          → HasChannel tr (after_round c (written tr (record c { send_channel = some queue }) o))
      after (some e, t) =
          handle_error-HasChannel e (record c { send_channel = some queue; transport = t })
      after (none, t) = λ _. refl

  handle_loaded-Keeps :
      (id : Any) (msg : Message) (o : Option PendingRequest) (c d : Client T W)
      → Keeps c d
      → OnOk (Keeps c) (handle_loaded id msg o d)
  unfolding handle_loaded
  handle_loaded-Keeps id msg none c d h = h
  handle_loaded-Keeps id msg (some p) c d h = elim (Bool-cases (same_id id p.reqmsg.id)) [
    | inl e ↦ rw e h
    | inr e ↦
        rw e (
          >>=-OnOk (λ _. Unit) (Keeps c) (replace_id msg p.reqmsg.id) _ (nothing_said _) (λ r _. h))
  ]

  handle_result-Keeps : (msg : Message) (c : Client T W) → OnOk (Keeps c) (handle_result msg c)
  unfolding handle_result
  handle_result-Keeps msg c =
      >>=-OnOk (λ _. Unit) (Keeps c) (must_id msg) _ (nothing_said _)
        (λ id _. handle_loaded-Keeps id msg _ c _ (λ h. h, refl))

  expire-Keeps : (k : Any) (c : Client T W) → Keeps c (expire k c)
  unfolding expire
  expire-Keeps k c = elim (Option-cases (load_and_delete k c.pending_requests).0) [
    | inl e ↦ rw e (λ h. h, refl)
    | inr (p, e) ↦ rw e (λ h. h, refl)
  ]

  received-HasChannel :
      (c : Client T W) (o : Read × T)
      → tr.read_message c.transport ≡ o
      → HasChannel tr c
      → OnOk (λ r. HasChannel tr (after_round c r)) (received tr c o)
  received-HasChannel c (failed e, t) same h =
      handle_error-HasChannel e (record c { transport = t })
  received-HasChannel c (skipped, t) same h = λ on. h (read_on c t same on)
  received-HasChannel c (readed msg, t) same h = elim (Bool-cases (is_result_or_error msg)) [
    | inl e ↦ rw e (
        >>=-OnOk (Keeps (record c { transport = t })) (λ r. HasChannel tr (after_round c r)) _ _
          (handle_result-Keeps msg (record c { transport = t }))
          (λ d keeps. kept (record c { transport = t }) d keeps (λ on. h (read_on c t same on))))
    | inr e ↦ rw e (λ on. h (read_on c t same on))
  ]

  recv_round-HasChannel :
      (c : Client T W)
      → HasChannel tr c
      → OnOk (λ r. HasChannel tr (after_round c r)) (recv_round tr c)
  unfolding recv_round
  recv_round-HasChannel c h = elim (Bool-cases (connected tr c)) [
    | inl e ↦ rw e (received-HasChannel c (tr.read_message c.transport) refl h)
    | inr e ↦ rw e h
  ]

  register-HasChannel :
      (m : RequestMessage) (new_uuid : String) (c : Client T W)
      → HasChannel tr c
      → OnOk (λ o. HasChannel tr o.1) (register tr m new_uuid c)
  unfolding register store_request
  register-HasChannel m new_uuid c h =
      >>=-OnOk (λ _. Unit) (λ o. HasChannel tr o.1) (message_to_send m new_uuid c) _
        (nothing_said _) (λ r _. h)

  request_message-HasChannel :
      (m : RequestMessage) (new_uuid : String) (c : Client T W)
      → HasChannel tr c
      → OnOk (λ o. HasChannel tr o.1) (request_message tr m new_uuid c)
  unfolding request_message store_request
  request_message-HasChannel m new_uuid c h = after (connect tr c) (connect-HasChannel c h)
    where
      after :
          (o : Option GoError × Client T W)
          → HasChannel tr o.1
          → OnOk (λ o. HasChannel tr o.1) (requested tr m new_uuid o)
      after (some e, d) k = k
      after (none, d) k =
          >>=-OnOk (λ o. HasChannel tr o.1) (λ o. HasChannel tr o.1) (register tr m new_uuid d) _
            (register-HasChannel m new_uuid d k) (λ o k'. send-HasChannel (request o.0) o.1 k')

  pub SerialStep-HasChannel :
      (c d : Client T W) → SerialStep tr c d → HasChannel tr c → HasChannel tr d
  unfolding close await
  SerialStep-HasChannel c _ (receives r e) h =
      subst (OnOk (λ r. HasChannel tr (after_round c r))) e (recv_round-HasChannel c h)
  SerialStep-HasChannel c _ writes h = send_round-HasChannel c.send_channel c refl h
  SerialStep-HasChannel c _ (sends msg) h = send-HasChannel msg c h
  SerialStep-HasChannel c _ connects h = connect-HasChannel c h
  SerialStep-HasChannel c _ closes h = elim (Bool-cases (connected tr c)) [
    | inl e ↦ rw e (reset-HasChannel none c)
    | inr e ↦ rw e h
  ]
  SerialStep-HasChannel c _ (resets e) h = reset-HasChannel e c
  SerialStep-HasChannel c _ (awaits close_error) h = h
  SerialStep-HasChannel c _ (awaits (response m)) h = h
  SerialStep-HasChannel c _ (expires k) h = kept c (expire k c) (expire-Keeps k c) h
  SerialStep-HasChannel c _ (drifts t calm) h = λ on. h (calm on)
  SerialStep-HasChannel c _ (sets_handlers m k g) h = h
  SerialStep-HasChannel c d (requests m new_uuid out _ e) h =
      subst (OnOk (λ o. HasChannel tr o.1)) e (request_message-HasChannel m new_uuid c h)
