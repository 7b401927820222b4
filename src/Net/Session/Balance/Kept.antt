-- ===== src/Net/Session/Balance/Kept.antt =====
-- Every step of a session keeps the balance.
use jsoff.Base.{
  String, Option, none, some, List, [], ◌∷◌, ◌++◌, ◌≡◌, refl, ap, inl, inr, Bool-cases, All,
  All-append, All-middle, sum_by, sum_by-append, sum_by-middle, arith, ltb, length, Reaches,
  Reaches-keeps,
}
use mathlib.Core.Path.{subst}
use jsoff.Value.{Any}
use jsoff.Result.{GoError, Result, ok, err, panic, OnOk, ◌>>=◌, context}
use jsoff.Message.{Message, request, notify, result, error}
use jsoff.Message.Document.{decode_message, document}
use jsoff.Message.Document.RoundTrip.{IsWellFormed}
use jsoff.Message.Document.Laws.{decode_message-IsDecoded, IsDecoded}
use jsoff.Net.Http1.{Json, decode_options}
use jsoff.Net.Actor.Feed.Answer.{Decodes, TreeBehaves}
use jsoff.Net.Session.{
  Server, Session, Outgoing, pushed, Task, to_feed, to_send, to_end, OnTurn, Frame, text_frame,
  other_frame, read_failed, Next, document_read, end_of_stream, ws_receive, stream_receive, decoded,
  take_in, stop_receiving, run_task, send, send_pass, write_text, message_of, end_session, fresh,
}
use jsoff.Net.Session.Steps.{Step, ws_reads, stream_reads, runs, writes, pushes, ends}
use jsoff.Net.Session.Balance.{answers, task_load, Balanced, Fit, Holds}
use jsoff.Net.Session.Balance.Fed.{Owes, msg_received-Holds}

IsDecoded-IsWellFormed : (m : Message) → IsDecoded decode_options m → IsWellFormed m
IsDecoded-IsWellFormed (request m) h = h.0
IsDecoded-IsWellFormed (notify m) h = h
IsDecoded-IsWellFormed (result m) h = h
IsDecoded-IsWellFormed (error m) h = h

pub decoded-IsWellFormed :
    (r : Result Any) → OnOk IsWellFormed (r >>= decode_message decode_options)
decoded-IsWellFormed (err e) = tt
decoded-IsWellFormed (panic p) = tt
decoded-IsWellFormed (ok doc) = go (decode_message decode_options doc) refl
  where
    go : (m : Result Message) → decode_message decode_options doc ≡ m → OnOk IsWellFormed m
    go (ok m) e = IsDecoded-IsWellFormed m (decode_message-IsDecoded decode_options doc m e)
    go (err e') e = tt
    go (panic p) e = tt

module _ {W : Type 0} where
  take_in-Holds :
      (r : Result Message) (s : Session W) → OnOk IsWellFormed r → Holds s → Holds (take_in r s)
  take_in-Holds r s fits (fit, balance) = (
    All-append Fit s.tasks _ fit (fits, tt),
    λ live w. omega (arith, balance live w, sum_by-append (task_load w) s.tasks (to_feed r ∷ [])),
  )

  stop_receiving-Holds : (e : Option GoError) (s : Session W) → Holds s → Holds (stop_receiving e s)
  stop_receiving-Holds e s (fit, balance) = (
    All-append Fit s.tasks _ fit (tt, tt),
    λ live w. omega (arith, balance live w, sum_by-append (task_load w) s.tasks (to_end e ∷ [])),
  )

  decoded-Holds :
      (r : Result Message) (s : Session W) → OnOk IsWellFormed r → Holds s → Holds (decoded r s)
  decoded-Holds (ok m) s fits h = take_in-Holds (ok m) s fits h
  decoded-Holds (err e) s fits h = stop_receiving-Holds (some e) s h
  decoded-Holds (panic p) s fits (fit, balance) = (fit, λ crashed. cc)

  ws_receive-Holds :
      (json : Json) (f : Frame) (s : Session W) → Holds s → Holds (ws_receive json f s)
  unfolding ws_receive
  ws_receive-Holds json (text_frame text) s h = elim (Bool-cases s.has_server) [
    | inl e ↦ simp e (
        take_in-Holds (json.read text >>= decode_message decode_options) s
          (decoded-IsWellFormed (json.read text)) h)
    | inr e ↦ simp e (h.0, λ crashed. cc)
  ]
  ws_receive-Holds json other_frame s h = h
  ws_receive-Holds json (read_failed e) s h =
      stop_receiving-Holds (some (context "ws.ReadMessage()" e)) s h

  stream_receive-Holds : (n : Next) (s : Session W) → Holds s → Holds (stream_receive n s)
  unfolding stream_receive
  stream_receive-Holds (document_read r) s h =
      decoded-Holds (r >>= decode_message decode_options) s (decoded-IsWellFormed r) h
  stream_receive-Holds end_of_stream s h = stop_receiving-Holds none s h

  send-Holds : (msg : Message) (s : Session W) → Holds s → OnTurn Holds (send msg s)
  unfolding send
  send-Holds msg s (fit, balance) = elim (Bool-cases (ltb (length s.send_channel) 100)) [
    | inl e ↦ rw e (
      fit,
      λ live w.
          omega (arith, balance live w, sum_by-append (answers w) s.send_channel (pushed msg ∷ [])),
    )
    | inr e ↦ rw e tt
  ]

  write_text-Holds :
      (server : Server W) (o : Outgoing) (text : Result String) (failure : Option GoError)
      (rest : List Outgoing) (s : Session W)
      → s.send_channel ≡ o ∷ rest
      → Holds s
      → Holds (write_text server o text failure (record s { send_channel = rest }))
  write_text-Holds server o (ok text) none rest s e (fit, balance) =
      (fit, λ live w. omega (arith, balance live w, ap (sum_by (answers w)) e))
  write_text-Holds server o (ok text) (some f) rest s e (fit, balance) =
      (fit, λ live w. omega (arith, balance live w, ap (sum_by (answers w)) e))
  write_text-Holds server o (err e') failure rest s e (fit, balance) =
      (fit, λ live w. omega (arith, balance live w, ap (sum_by (answers w)) e))
  write_text-Holds server o (panic p) failure rest s e (fit, balance) = (fit, λ crashed. cc)

  send_pass-Holds :
      (server : Server W) (json : Json) (failure : Option GoError) (queue : List Outgoing)
      (s : Session W)
      → s.send_channel ≡ queue
      → Holds s
      → OnTurn Holds (send_pass server json failure s queue)
  unfolding send_pass
  send_pass-Holds server json failure [] s e h = tt
  send_pass-Holds server json failure (o ∷ rest) s e h =
      write_text-Holds server o (json.print (document (message_of o))) failure rest s e h

module _ {W : Type 0} (json : Json) (decode_template : Message → Result (List (String × Any)))
    (server : Server W) (id : String) (decodes : Decodes decode_template)
    (good : TreeBehaves server.actor) where
  run_task-Holds :
      (t : Task) (s : Session W)
      → Fit t
      → Owes (λ w. task_load w t) s
      → OnTurn Holds (run_task decode_template server id t s)
  unfolding run_task
  run_task-Holds (to_feed r) s fits owes =
      msg_received-Holds decode_template server id decodes good r s fits owes
  run_task-Holds (to_send o) s fits (fit, owes) =
      elim (Bool-cases (ltb (length s.send_channel) 100)) [
        | inl e ↦ rw e (
          fit,
          λ live w. omega (arith, owes live w, sum_by-append (answers w) s.send_channel (o ∷ [])),
        )
        | inr e ↦ rw e tt
      ]
  run_task-Holds (to_end e') s fits (fit, owes) = elim (Bool-cases (ltb (length s.done) 10)) [
    | inl e ↦ rw e (fit, λ live w. omega (arith, owes live w))
    | inr e ↦ rw e tt
  ]

  taken_out :
      (before after : List Task) (t : Task) (s : Session W)
      → s.tasks ≡ before ++ t ∷ after
      → Holds s
      → Fit t × Owes (λ w. task_load w t) (record s { tasks = before ++ after })
  taken_out before after t s e (fit, balance) =
      let (fits, rest) = All-middle Fit before t after (subst (All Fit) e fit) in
      (
        fits,
        (
          rest,
          λ live w. omega (
            arith,
            balance live w,
            ap (sum_by (task_load w)) e,
            sum_by-middle (task_load w) before t after,
          ),
        ),
      )

  Step-Holds : (s d : Session W) → Step json decode_template server id s d → Holds s → Holds d
  unfolding end_session
  Step-Holds s _ (ws_reads f live ready) h = ws_receive-Holds json f s h
  Step-Holds s _ (stream_reads n live ready) h = stream_receive-Holds n s h
  Step-Holds s d (runs before after t _ live e same) h =
      let (fits, owes) = taken_out before after t s e h in
      subst (OnTurn Holds) same (run_task-Holds t (record s { tasks = before ++ after }) fits owes)
  Step-Holds s d (writes failure _ live on same) h =
      subst (OnTurn Holds) same (send_pass-Holds server json failure s.send_channel s refl h)
  Step-Holds s d (pushes msg _ live same) h = subst (OnTurn Holds) same (send-Holds msg s h)
  Step-Holds s _ (ends live on) h = h

  -- If the callbacks behave, then in every state that a session reaches by actions of its goroutines in
  -- any order, as long as the program has not crashed, the requests that were received are, with the same
  -- ids and trace ids and each once, those that wait for their turn and the answers that are on their way,
  -- written or lost to a failed write: no request is answered twice or by another's answer.
  pub session-Balanced :
      (w0 : W) (s : Session W)
      → Reaches (Step json decode_template server id) (fresh w0) s
      → Balanced s
  session-Balanced w0 s run =
      (Reaches-keeps (Step json decode_template server id) Holds Step-Holds (fresh w0) s run
        (tt, λ live w. refl)).1
