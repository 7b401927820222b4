-- ===== src/Net/Session/Order/Fed.antt =====
-- What the only task of a session does to the order.
use jsoff.Base.{
  Bool, if◌then◌else◌, true, false, String, none, some, List, [], ◌∷◌, ◌++◌, ◌≡◌, refl, sym, ap,
  ◌∙◌, inl, inr, Bool-cases, in_order, flat-append, ltb, length,
}
use mathlib.Core.List.{append-nil, append_assoc}
use jsoff.Value.{Any}
use jsoff.Result.{Result, ok, err, panic, OnOk, context, foreign}
use jsoff.Message.{Message, RequestMessage, request, notify, result, error, must_id}
use jsoff.Message.Document.RoundTrip.{IsWellFormed}
use jsoff.Message.Factory.Laws.{Answers}
use jsoff.Net.Actor.Feed.{Feedback, feed}
use jsoff.Net.Actor.Feed.Replies.{IsSilent}
use jsoff.Net.Actor.Feed.Answer.{Decodes, TreeBehaves}
use jsoff.Net.Session.{
  Server, Session, Outgoing, OnTurn, answer, Task, to_feed, to_send, to_end, after_feed,
  msg_received, run_task, session_request,
}
use jsoff.Net.Session.Balance.{Fit}
use jsoff.Net.Session.Balance.Fed.{FeedsBack, feed-FeedsBack}
use jsoff.Net.Session.Order.{Keys, asked, answered_key, task_keys, sent_keys, HoldsOrder}

abbrev outcome_keys : Feedback → Keys
outcome_keys (ok (some r)) = answered_key (answer r)
outcome_keys _ = []

silent-keys : (f : Feedback) → IsSilent f → outcome_keys f ≡ []
silent-keys (ok (some r)) h = absurd (h r refl)
silent-keys (ok none) h = refl
silent-keys (err e) h = refl
silent-keys (panic r) h = refl

Answers-keys :
    (m : RequestMessage) (r : Message)
    → Answers r (request m)
    → answered_key (answer r) ≡ asked (ok (request m))
unfolding must_id
Answers-keys m r (id, trace) = rw (id, trace) refl

FeedsBack-keys : (msg : Message) (f : Feedback) → FeedsBack msg f → outcome_keys f ≡ asked (ok msg)
FeedsBack-keys (request m) f (r, fed, own) = rw fed (Answers-keys m r own)
FeedsBack-keys (notify m) f h = silent-keys f h
FeedsBack-keys (result m) f h = silent-keys f h
FeedsBack-keys (error m) f h = silent-keys f h

module _ {W : Type 0} where
  -- A state without tasks, from which a task with keys was taken out.
  abbrev pub OwesKeys : Keys → Session W → Type 0
  OwesKeys taken s =
      (s.crashed ≡ false → s.sending ≡ true → s.lost ≡ [])
      × (s.crashed ≡ false → in_order asked s.received ≡ sent_keys s ++ taken)

  -- The only task.
  abbrev pub alone : Session W → Session W
  alone s = record s { tasks = [] }

  pub by_test :
      (b : Bool) (x y : Session W) → HoldsOrder x → HoldsOrder y → HoldsOrder (if b then x else y)
  by_test true x y h h' = h
  by_test false x y h h' = h'

  -- A message at the end of the channel.
  pub channel-keys :
      (o : Outgoing) (s : Session W)
      → sent_keys (record s { send_channel = s.send_channel ++ o ∷ [] })
        ≡ sent_keys s ++ answered_key o
  channel-keys o s =
      simp (flat-append answered_key s.send_channel (o ∷ []), append_assoc, append-nil)

  pub with_task :
      (t : Task) (s : Session W)
      → Fit t
      → OwesKeys (task_keys t) s
      → HoldsOrder (record s { tasks = t ∷ [] })
  with_task t s fits (kept, owes) = (
    (fits, tt),
    (inr (t, refl), kept),
    λ live. owes live ∙ ap (λ r. sent_keys s ++ r) (sym (append-nil (task_keys t))),
  )

  without_task : (s : Session W) → OwesKeys [] s → HoldsOrder (alone s)
  without_task s (kept, owes) = (tt, (inl refl, kept), owes)

  after_feed-HoldsOrder :
      (o : Feedback × W) (s : Session W)
      → OwesKeys (outcome_keys o.0) s
      → HoldsOrder (after_feed o (alone s))
  after_feed-HoldsOrder (ok none, w) s owes = without_task (record s { world = w }) owes
  after_feed-HoldsOrder (ok (some r), w) s owes =
      with_task (to_send (answer r)) (record s { world = w }) tt owes
  after_feed-HoldsOrder (err e, w) s owes =
      with_task (to_end (some (context "actor.Feed" e))) (record s { world = w }) tt owes
  after_feed-HoldsOrder (panic r, w) s (kept, owes) = (tt, (inl refl, λ crashed. cc), λ crashed. cc)

module _ {W : Type 0} (decode_template : Message → Result (List (String × Any))) (server : Server W)
    (id : String) (decodes : Decodes decode_template) (good : TreeBehaves server.actor) where
  msg_received-HoldsOrder :
      (r : Result Message) (s : Session W)
      → OnOk IsWellFormed r
      → OwesKeys (asked r) s
      → HoldsOrder (msg_received decode_template server id r (alone s))
  unfolding msg_received
  msg_received-HoldsOrder (err e) s h owes =
      with_task (to_end (some (foreign "bad jsonrpc message"))) s tt owes
  msg_received-HoldsOrder (panic p) s h (kept, owes) =
      (tt, (inl refl, λ crashed. cc), λ crashed. cc)
  msg_received-HoldsOrder (ok msg) s h (kept, owes) =
      by_test s.has_server _ _
        (after_feed-HoldsOrder
          (feed decode_template server.actor (session_request server id msg) s.world) s
          (
            kept,
            λ live.
                owes live
                ∙ ap (λ r. sent_keys s ++ r)
                    (sym (
                      FeedsBack-keys msg _ (
                        feed-FeedsBack decode_template decodes server.actor good
                          (session_request server id msg) msg s.world refl h))),
          ))
        (tt, (inl refl, λ crashed. cc), λ crashed. cc)

  pub run_task-HoldsOrder :
      (t : Task) (s : Session W)
      → Fit t
      → OwesKeys (task_keys t) s
      → OnTurn HoldsOrder (run_task decode_template server id t (alone s))
  unfolding run_task
  run_task-HoldsOrder (to_feed r) s fits owes = msg_received-HoldsOrder r s fits owes
  run_task-HoldsOrder (to_send o) s fits (kept, owes) =
      elim (Bool-cases (ltb (length s.send_channel) 100)) [
        | inl e ↦ rw e (
            without_task (record s { send_channel = s.send_channel ++ o ∷ [] })
              (kept, λ live. owes live ∙ sym (channel-keys o s) ∙ sym (append-nil _)))
        | inr e ↦ rw e tt
      ]
  run_task-HoldsOrder (to_end e') s fits owes = elim (Bool-cases (ltb (length s.done) 10)) [
    | inl e ↦ rw e (without_task (record s { done = s.done ++ e' ∷ [] }) owes)
    | inr e ↦ rw e tt
  ]
