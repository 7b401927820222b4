-- ===== src/Net/Streaming/Reach/Settled.antt =====
-- The actions that make no request leave the channels held as they were, and send only responses
-- that carry the id of their request.
use jsoff.Base.{Option, none, some, List, [], ◌∷◌, inl, inr, Bool-cases, ltb, length}
use mathlib.Core.Path.{subst}
use jsoff.Result.{>>=-OnOk, OnOk, GoError}
use jsoff.Message.{Message, is_result_or_error}
use jsoff.Net.Streaming.{
  Transport, Client, Read, failed, skipped, readed, received, recv_round, send_round, written,
  connect, connected, after_connect, put, reset, handle_error, Selected, close_error, response,
  await,
}
use jsoff.Net.Streaming.Ledger.{Settles, Settles-refl, handle_result-Settles, expire-Settles}
use jsoff.Net.Streaming.Reach.{
  calls_message, takes, after_round, Quiet, receives, writes, handles, puts, connects,
  calls_connected, sets_cancel, makes_send_channel, makes_close_channel, cancels, tells_closed,
  drops_close_channel, closes_transport, drops_send_channel, calls_closed, awaits, expires, drifts,
  sets_handlers,
}

module _ {T W : Type 0} (tr : Transport T) where
  pub connect-Settles : (c : Client T W) → Settles c (connect tr c).1
  unfolding connect
  connect-Settles c = elim (Bool-cases (connected tr c)) [
    | inl e ↦ rw e (Settles-refl c)
    | inr e ↦ rw e (after (tr.connect c.transport))
  ]
    where
      after : (o : Option GoError × T) → Settles c (after_connect tr c o).1
      after (some e, t) = Settles-refl c
      after (none, t) = Settles-refl c

  handle_error-Settles : (e : GoError) (c : Client T W) → Settles c (handle_error tr e c)
  unfolding handle_error reset
  handle_error-Settles e c = Settles-refl c

  put-Settles :
      (msg : Message) (queue : Option (List Message)) (c : Client T W)
      → Settles c (put tr msg queue c).1
  put-Settles msg none c = Settles-refl c
  put-Settles msg (some queue) c = elim (Bool-cases (ltb (length queue) 100)) [
    | inl e ↦ rw e (Settles-refl c)
    | inr e ↦ rw e (Settles-refl c)
  ]

  send_round-Settles :
      (queue : Option (List Message)) (c : Client T W)
      → Settles c (after_round c (send_round tr queue c))
  unfolding send_round handle_error reset
  send_round-Settles none c = Settles-refl c
  send_round-Settles (some []) c = Settles-refl c
  send_round-Settles (some (msg ∷ queue)) c = elim (Bool-cases (connected tr c)) [
    | inl e ↦ rw e (after (tr.write_message msg c.transport))
    | inr e ↦ rw e (Settles-refl c)
  ]
    where
      after :
          (o : Option GoError × T)
          → Settles c (after_round c (written tr (record c { send_channel = some queue }) o))
      after (some e, t) = handle_error-Settles e (record c { transport = t })
      after (none, t) = Settles-refl c

  received-Settles :
      (c : Client T W) (o : Read × T) → OnOk (λ r. Settles c (after_round c r)) (received tr c o)
  received-Settles c (failed e, t) = handle_error-Settles e (record c { transport = t })
  received-Settles c (skipped, t) = Settles-refl c
  received-Settles c (readed msg, t) = elim (Bool-cases (is_result_or_error msg)) [
    | inl e ↦ rw e (
        >>=-OnOk (Settles c) (λ r. Settles c (after_round c r)) _ _
          (handle_result-Settles msg (record c { transport = t })) (λ d h. h))
    | inr e ↦ rw e (Settles-refl c)
  ]

  recv_round-Settles : (c : Client T W) → OnOk (λ r. Settles c (after_round c r)) (recv_round tr c)
  unfolding recv_round
  recv_round-Settles c = elim (Bool-cases (connected tr c)) [
    | inl e ↦ rw e (received-Settles c (tr.read_message c.transport))
    | inr e ↦ rw e (Settles-refl c)
  ]

  await-Settles : (s : Selected) (c : Client T W) → Settles c (await s c).1
  unfolding await
  await-Settles close_error c = Settles-refl c
  await-Settles (response m) c = Settles-refl c

  pub Quiet-Settles : (c d : Client T W) → Quiet tr c d → Settles c d
  Quiet-Settles c _ (receives r e) =
      subst (OnOk (λ r. Settles c (after_round c r))) e (recv_round-Settles c)
  Quiet-Settles c _ writes = send_round-Settles c.send_channel c
  Quiet-Settles c _ (handles msg d e) = subst (OnOk (Settles c)) e (handle_result-Settles msg c)
  Quiet-Settles c _ (calls_message msg) = Settles-refl c
  Quiet-Settles c _ (takes msg queue e) = Settles-refl c
  Quiet-Settles c _ (puts msg) = put-Settles msg c.send_channel c
  Quiet-Settles c _ connects = connect-Settles c
  Quiet-Settles c _ calls_connected = Settles-refl c
  Quiet-Settles c _ sets_cancel = Settles-refl c
  Quiet-Settles c _ makes_send_channel = Settles-refl c
  Quiet-Settles c _ makes_close_channel = Settles-refl c
  Quiet-Settles c _ cancels = Settles-refl c
  Quiet-Settles c _ (tells_closed e) = Settles-refl c
  Quiet-Settles c _ drops_close_channel = Settles-refl c
  Quiet-Settles c _ closes_transport = Settles-refl c
  Quiet-Settles c _ drops_send_channel = Settles-refl c
  Quiet-Settles c _ calls_closed = Settles-refl c
  Quiet-Settles c _ (awaits s) = await-Settles s c
  Quiet-Settles c _ (expires k) = expire-Settles k c
  Quiet-Settles c _ (drifts t) = Settles-refl c
  Quiet-Settles c _ (sets_handlers m h g) = Settles-refl c
