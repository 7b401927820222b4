-- ===== src/Net/Streaming/Reach/Sending.antt =====
-- How a send ends, if the operations of the client run one after the other.
use jsoff.Base.{
  Reaches-keeps, Reaches, true, false, Option, none, some, List, [], ◌∷◌, ◌++◌, ◌≡◌, ◌≤◌, refl, sym,
  ◌∙◌, inl, inr, ◌⊎◌, Bool-cases, ltb, length, is_some, ltb-false, ltb-true, ◌<◌,
}
use jsoff.Result.{GoError}
use jsoff.Message.{Message}
use jsoff.Net.Streaming.{
  Transport, Client, Sent, sent, not_sent, blocked, connected, connect, after_connect, send,
  after_connecting, put,
}
use jsoff.Net.Streaming.Reach.Serial.{SerialStep}
use jsoff.Net.Streaming.Reach.Channel.{TransportLaws, HasChannel, SerialStep-HasChannel}

module _ {T W : Type 0} (tr : Transport T) where
  -- How a send ends, by the connection that it made or had.
  abbrev pub SendEnds : Message → Option GoError × Client T W → Sent × Client T W → Type 0
  SendEnds msg o r =
      ((e : GoError) × (o.0 ≡ some e) × (r ≡ (not_sent e, o.1)))
      ⊎ ((queue : List Message) × (o.0 ≡ none)
          × (o.1.send_channel ≡ some queue)
          × (((length queue < 100)
                × (r ≡ (sent, record o.1 { send_channel = some (queue ++ msg ∷ []) })))
              ⊎ ((100 ≤ length queue) × (r ≡ (blocked, o.1)))))

  put-SendEnds :
      (msg : Message) (o : Option (List Message)) (d : Client T W)
      → d.send_channel ≡ o
      → is_some o ≡ true
      → SendEnds msg (none, d) (put tr msg o d)
  put-SendEnds msg none d e h = cc
  put-SendEnds msg (some queue) d e h = elim (Bool-cases (ltb (length queue) 100)) [
    | inl less ↦ rw less (inr (queue, refl, e, inl (ltb-true _ _ less, refl)))
    | inr more ↦ rw more (inr (queue, refl, e, inr (ltb-false _ _ more, refl)))
  ]

  connect-some :
      (c : Client T W)
      → HasChannel tr c
      → (connect tr c).0 ≡ none
      → is_some (connect tr c).1.send_channel ≡ true
  unfolding connect
  connect-some c h = elim (Bool-cases (connected tr c)) [
    | inl e ↦ rw e (λ _. h e)
    | inr e ↦ rw e (after (tr.connect c.transport))
  ]
    where
      after :
          (o : Option GoError × T)
          → (after_connect tr c o).0 ≡ none
          → is_some (after_connect tr c o).1.send_channel ≡ true
      after (some e, t) h' = cc
      after (none, t) h' = refl

  -- In every state that is reached from a client that is not connected by operations of which each runs to its
  -- end before the next begins, a send that nothing interrupts either returns the error of the connection, or it
  -- adds the message at the end of the send channel if that holds less than a hundred messages, and waits if it
  -- is full; under these conditions it does not wait at a channel that is nil.
  pub send-SendEnds :
      TransportLaws tr
      → (c d : Client T W) (msg : Message) → connected tr c ≡ false
      → Reaches (SerialStep tr) c d
      → SendEnds msg (connect tr d) (send tr msg d)
  unfolding send
  send-SendEnds laws c d msg off run = after (connect tr d) (connect-some d there)
    where
      there : HasChannel tr d
      there =
          Reaches-keeps (SerialStep tr) (HasChannel tr) (SerialStep-HasChannel tr laws) c d run
            (λ on. absurd (cc (sym on ∙ off)))

      after :
          (o : Option GoError × Client T W)
          → (o.0 ≡ none → is_some o.1.send_channel ≡ true)
          → SendEnds msg o (after_connecting tr msg o)
      after (some e, d) k = inl (e, refl, refl)
      after (none, d) k = put-SendEnds msg d.send_channel d refl (k refl)
