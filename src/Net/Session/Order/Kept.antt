-- ===== src/Net/Session/Order/Kept.antt =====
-- Every step of a session without goroutines for its messages keeps the order.
use jsoff.Base.{
  true, false, String, Option, none, some, List, [], ◌∷◌, ◌++◌, ◌≡◌, ◌≢◌, refl, sym, ap, ◌∙◌, inl,
  inr, Bool-cases, All, flat, in_order, ltb, length, Reaches, Reaches-keeps,
}
use mathlib.Core.Path.{subst}
use mathlib.Core.List.{append-nil, append_assoc, head-eq_of_cons-eq, tail-eq_of_cons-eq, cons≢nil}
use jsoff.Value.{Any}
use jsoff.Result.{GoError, Result, ok, err, panic, OnOk, ◌>>=◌, context}
use jsoff.Message.{Message}
use jsoff.Message.Document.{decode_message, document}
use jsoff.Message.Document.RoundTrip.{IsWellFormed}
use jsoff.Net.Http1.{Json, decode_options}
use jsoff.Net.Actor.Feed.Answer.{Decodes, TreeBehaves}
use jsoff.Net.Session.{
  Server, Session, Outgoing, pushed, Task, to_feed, to_end, OnTurn, Frame, text_frame, other_frame,
  read_failed, Next, document_read, end_of_stream, ws_receive, stream_receive, decoded, take_in,
  stop_receiving, run_task, send, send_pass, write_text, message_of, end_session, fresh,
}
use jsoff.Net.Session.Steps.{Step, ws_reads, stream_reads, runs, writes, pushes, ends}
use jsoff.Net.Session.Balance.{Fit}
use jsoff.Net.Session.Balance.Kept.{decoded-IsWellFormed}
use jsoff.Net.Session.Order.{
  asked, answered_key, written_key, task_keys, sent_keys, HoldsOrder, Ordered,
}
use jsoff.Net.Session.Order.Fed.{OwesKeys, with_task, by_test, channel-keys, run_task-HoldsOrder}

no_end : (before : List Task) (t : Task) (after : List Task) → before ++ t ∷ after ≢ []
no_end [] t after e = cons≢nil e
no_end (v ∷ before) t after e = cons≢nil e

only_one :
    (before after : List Task) (t u : Task)
    → u ∷ [] ≡ before ++ t ∷ after
    → (u ≡ t) × (before ≡ []) × (after ≡ [])
only_one [] [] t u e = (head-eq_of_cons-eq e, refl, refl)
only_one [] (v ∷ after) t u e = absurd (cons≢nil (sym (tail-eq_of_cons-eq e)))
only_one (v ∷ before) after t u e = absurd (no_end before t after (sym (tail-eq_of_cons-eq e)))

module _ {W : Type 0} where
  -- Between two messages there is no task, so that all answers were sent.
  idle : (s : Session W) → s.tasks ≡ [] → HoldsOrder s → OwesKeys [] s
  idle s e (fit, (one, kept), order) =
      (kept, λ live. order live ∙ ap (λ ts. sent_keys s ++ flat task_keys ts) e)

  add_only :
      (t : Task) (s d : Session W)
      → s.tasks ≡ []
      → Fit t
      → OwesKeys (task_keys t) d
      → HoldsOrder (record d { tasks = s.tasks ++ t ∷ [] })
  add_only t s d e fits owes =
      subst (λ ts. HoldsOrder (record d { tasks = ts ++ t ∷ [] })) (sym e) (with_task t d fits owes)

  take_in-HoldsOrder :
      (r : Result Message) (s : Session W)
      → OnOk IsWellFormed r
      → s.tasks ≡ []
      → HoldsOrder s
      → HoldsOrder (take_in r s)
  take_in-HoldsOrder r s fits e h =
      let (kept, owes) = idle s e h in
      add_only (to_feed r) s (record s { received = r ∷ s.received }) e fits
        (kept, λ live. ap (λ k. k ++ asked r) (owes live ∙ append-nil (sent_keys s)))

  stop_receiving-HoldsOrder :
      (e' : Option GoError) (s : Session W)
      → s.tasks ≡ []
      → HoldsOrder s
      → HoldsOrder (stop_receiving e' s)
  stop_receiving-HoldsOrder e' s e h =
      add_only (to_end e') s (record s { receiving = false }) e tt (idle s e h)

  crash-HoldsOrder : (s : Session W) → HoldsOrder s → HoldsOrder (record s { crashed = true })
  crash-HoldsOrder s (fit, (one, kept), order) = (fit, (one, λ crashed. cc), λ crashed. cc)

  decoded-HoldsOrder :
      (r : Result Message) (s : Session W)
      → OnOk IsWellFormed r
      → s.tasks ≡ []
      → HoldsOrder s
      → HoldsOrder (decoded r s)
  decoded-HoldsOrder (ok m) s fits e h = take_in-HoldsOrder (ok m) s fits e h
  decoded-HoldsOrder (err e') s fits e h = stop_receiving-HoldsOrder (some e') s e h
  decoded-HoldsOrder (panic p) s fits e h = crash-HoldsOrder s h

  ws_receive-HoldsOrder :
      (json : Json) (f : Frame) (s : Session W)
      → s.tasks ≡ []
      → HoldsOrder s
      → HoldsOrder (ws_receive json f s)
  unfolding ws_receive
  ws_receive-HoldsOrder json (text_frame text) s e h =
      by_test s.has_server _ _
        (take_in-HoldsOrder (json.read text >>= decode_message decode_options) s
          (decoded-IsWellFormed (json.read text)) e h)
        (crash-HoldsOrder s h)
  ws_receive-HoldsOrder json other_frame s e h = h
  ws_receive-HoldsOrder json (read_failed e') s e h =
      stop_receiving-HoldsOrder (some (context "ws.ReadMessage()" e')) s e h

  stream_receive-HoldsOrder :
      (n : Next) (s : Session W) → s.tasks ≡ [] → HoldsOrder s → HoldsOrder (stream_receive n s)
  unfolding stream_receive
  stream_receive-HoldsOrder (document_read r) s e h =
      decoded-HoldsOrder (r >>= decode_message decode_options) s (decoded-IsWellFormed r) e h
  stream_receive-HoldsOrder end_of_stream s e h = stop_receiving-HoldsOrder none s e h

  send-HoldsOrder : (msg : Message) (s : Session W) → HoldsOrder s → OnTurn HoldsOrder (send msg s)
  unfolding send
  send-HoldsOrder msg s (fit, one, order) = elim (Bool-cases (ltb (length s.send_channel) 100)) [
    | inl e ↦ rw e (
      fit,
      one,
      λ live.
          order live
          ∙ ap (λ k. k ++ flat task_keys s.tasks)
              (sym (channel-keys (pushed msg) s ∙ append-nil (sent_keys s))),
    )
    | inr e ↦ rw e tt
  ]

  -- Taking the first message out of the channel, and writing or losing it.
  moved-keys :
      (s : Session W) (o : Outgoing) (rest : List Outgoing)
      → s.send_channel ≡ o ∷ rest
      → s.lost ≡ []
      → sent_keys s ≡ in_order written_key s.written ++ (answered_key o ++ flat answered_key rest)
  moved-keys s o rest e none_lost = rw (e, none_lost) refl

  lost-HoldsOrder :
      (s : Session W) (o : Outgoing) (rest : List Outgoing)
      → s.send_channel ≡ o ∷ rest
      → s.crashed ≡ false
      → s.sending ≡ true
      → HoldsOrder s
      → HoldsOrder (record s { send_channel = rest; sending = false; lost = o ∷ s.lost })
  lost-HoldsOrder s o rest e live on (fit, (one, kept), order) = (
    fit,
    (one, λ alive off. cc),
    λ alive.
        order live
        ∙ ap (λ k. k ++ flat task_keys s.tasks)
            (moved-keys s o rest e (kept live on) ∙ rw (kept live on) refl),
  )

  write_text-HoldsOrder :
      (server : Server W) (o : Outgoing) (text : Result String) (failure : Option GoError)
      (rest : List Outgoing) (s : Session W)
      → s.send_channel ≡ o ∷ rest
      → s.crashed ≡ false
      → s.sending ≡ true
      → HoldsOrder s
      → HoldsOrder (write_text server o text failure (record s { send_channel = rest }))
  write_text-HoldsOrder server o (ok text) none rest s e live on (fit, (one, kept), order) = (
    fit,
    (one, kept),
    λ alive.
        order live
        ∙ ap (λ k. k ++ flat task_keys s.tasks)
            (moved-keys s o rest e (kept live on)
              ∙ rw (kept live on) (
                  sym (
                    append_assoc (in_order written_key s.written) (answered_key o)
                      (flat answered_key rest)))),
  )
  write_text-HoldsOrder server o (ok text) (some f) rest s e live on h =
      lost-HoldsOrder s o rest e live on h
  write_text-HoldsOrder server o (err e') failure rest s e live on h =
      lost-HoldsOrder s o rest e live on h
  write_text-HoldsOrder server o (panic p) failure rest s e live on (fit, (one, kept), order) =
      (fit, (one, λ crashed. cc), λ crashed. cc)

  send_pass-HoldsOrder :
      (server : Server W) (json : Json) (failure : Option GoError) (queue : List Outgoing)
      (s : Session W)
      → s.send_channel ≡ queue
      → s.crashed ≡ false
      → s.sending ≡ true
      → HoldsOrder s
      → OnTurn HoldsOrder (send_pass server json failure s queue)
  unfolding send_pass
  send_pass-HoldsOrder server json failure [] s e live on h = tt
  send_pass-HoldsOrder server json failure (o ∷ rest) s e live on h =
      write_text-HoldsOrder server o (json.print (document (message_of o))) failure rest s e live on
        h

  -- A task of a session that holds at most one is its only one.
  the_task :
      (s : Session W) (before after : List Task) (t : Task)
      → s.tasks ≡ before ++ t ∷ after
      → HoldsOrder s
      → (s.tasks ≡ t ∷ []) × (before ++ after ≡ [])
  the_task s before after t e (fit, (inl none_left, kept), order) =
      absurd (no_end before t after (sym e ∙ none_left))
  the_task s before after t e (fit, (inr (u, single), kept), order) =
      let (same, first, last) = only_one before after t u (sym single ∙ e) in
      (single ∙ ap (λ x. x ∷ []) same, rw (first, last) refl)

  task-OwesKeys :
      (s : Session W) (t : Task)
      → s.tasks ≡ t ∷ []
      → HoldsOrder s
      → Fit t × OwesKeys (task_keys t) s
  task-OwesKeys s t e (fit, (one, kept), order) = (
    (subst (All Fit) e fit).0,
    (
      kept,
      λ live.
          order live
          ∙ ap (λ ts. sent_keys s ++ flat task_keys ts) e
          ∙ ap (λ k. sent_keys s ++ k) (append-nil (task_keys t)),
    ),
  )

module _ {W : Type 0} (json : Json) (decode_template : Message → Result (List (String × Any)))
    (server : Server W) (id : String) (decodes : Decodes decode_template)
    (good : TreeBehaves server.actor) (in_turn : server.spawn ≡ false) where
  Step-HoldsOrder :
      (s d : Session W) → Step json decode_template server id s d → HoldsOrder s → HoldsOrder d
  unfolding end_session
  Step-HoldsOrder s _ (ws_reads f live (on, idle)) h =
      ws_receive-HoldsOrder json f s (idle in_turn) h
  Step-HoldsOrder s _ (stream_reads n live (on, idle)) h =
      stream_receive-HoldsOrder n s (idle in_turn) h
  Step-HoldsOrder s d (runs before after t _ live e same) h =
      let (single, empty) = the_task s before after t e h in
      let (fits, owes) = task-OwesKeys s t single h in
      subst (OnTurn HoldsOrder)
        (ap (λ ts. run_task decode_template server id t (record s { tasks = ts })) (sym empty)
          ∙ same)
        (run_task-HoldsOrder decode_template server id decodes good t s fits owes)
  Step-HoldsOrder s d (writes failure _ live on same) h =
      subst (OnTurn HoldsOrder) same
        (send_pass-HoldsOrder server json failure s.send_channel s refl live on h)
  Step-HoldsOrder s d (pushes msg _ live same) h =
      subst (OnTurn HoldsOrder) same (send-HoldsOrder msg s h)
  Step-HoldsOrder s _ (ends live on) h = h

  -- If the callbacks behave and the server handles each message before it reads the next, then in every state
  -- that a session reaches, as long as the program has not crashed, the requests in the order in which they
  -- were received are, by their ids and trace ids, those of the answers in the order in which they were
  -- written, then of an answer that was lost to a failed write, of the answers in the channel, and of the
  -- message that is being handled.
  pub session-Ordered :
      (w0 : W) (s : Session W)
      → Reaches (Step json decode_template server id) (fresh w0) s
      → Ordered s
  session-Ordered w0 s run =
      (Reaches-keeps (Step json decode_template server id) HoldsOrder Step-HoldsOrder (fresh w0) s
        run (tt, (inl refl, λ live on. refl), λ live. refl)).2
