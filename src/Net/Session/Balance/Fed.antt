-- ===== src/Net/Session/Balance/Fed.antt =====
-- What a task that feeds a message does to the balance.
use jsoff.Base.{
  ℕ, ◌+◌, false, String, none, some, List, [], ◌∷◌, ◌≡◌, refl, sym, ap, ◌∙◌, inl, inr, Bool-cases,
  All, All-append, sum_by, sum_by-append, arith,
}
use jsoff.Value.{Any}
use jsoff.Result.{context, foreign, Result, ok, err, panic, OnOk}
use jsoff.Message.{Message, RequestMessage, request, notify, result, error, must_id, is_request}
use jsoff.Message.Document.RoundTrip.{IsWellFormed}
use jsoff.Message.Factory.Laws.{Answers}
use jsoff.Net.Actor.{RpcRequest, Actor}
use jsoff.Net.Actor.Feed.{Feedback, feed, as_request}
use jsoff.Net.Actor.Feed.Replies.{IsSilent, feed-IsSilent}
use jsoff.Net.Actor.Feed.Answer.{Decodes, TreeBehaves}
use jsoff.Net.Actor.Feed.Answered.{feed-request}
use jsoff.Net.Session.{
  Server, Session, answer, to_send, to_end, after_feed, msg_received, session_request,
}
use jsoff.Net.Session.Balance.{Weight, asks, answers, task_load, load, Fit, Holds}

-- The weight of what `Feed` returned.
abbrev outcome_load : Weight → Feedback → ℕ
outcome_load w (ok (some r)) = answers w (answer r)
outcome_load w _ = 0

silent-load : (w : Weight) (f : Feedback) → IsSilent f → outcome_load w f ≡ 0
silent-load w (ok (some r)) h = absurd (h r refl)
silent-load w (ok none) h = refl
silent-load w (err e) h = refl
silent-load w (panic r) h = refl

Answers-load :
    (w : Weight) (m : RequestMessage) (r : Message)
    → Answers r (request m)
    → answers w (answer r) ≡ asks w (ok (request m))
unfolding must_id
Answers-load w m r (id, trace) = rw (id, trace) refl

not_request : (msg : Message) → IsWellFormed msg → as_request msg ≡ none → is_request msg ≡ false
unfolding is_request
not_request (request m) h e = cc
not_request (notify m) h e = rw h.0 refl
not_request (result m) h e = rw h.0 refl
not_request (error m) h e = rw h.0 refl

-- What Feed returns for a message of a kind: the answer to a request, and no message for others.
abbrev pub FeedsBack : Message → Feedback → Type 0
FeedsBack (request m) f = (r : Message) × (f ≡ ok (some r)) × Answers r (request m)
FeedsBack _ f = IsSilent f

FeedsBack-load :
    (w : Weight) (msg : Message) (f : Feedback)
    → FeedsBack msg f
    → outcome_load w f ≡ asks w (ok msg)
FeedsBack-load w (request m) f (r, fed, own) = rw fed (Answers-load w m r own)
FeedsBack-load w (notify m) f h = silent-load w f h
FeedsBack-load w (result m) f h = silent-load w f h
FeedsBack-load w (error m) f h = silent-load w f h

module _ {W : Type 0} (decode_template : Message → Result (List (String × Any)))
    (decodes : Decodes decode_template) (a : Actor W) (good : TreeBehaves a) where
  quiet_feed-IsSilent :
      (req : RpcRequest) (msg : Message) (world : W)
      → req.msg ≡ msg
      → IsWellFormed msg
      → as_request msg ≡ none
      → IsSilent (feed decode_template a req world).0
  quiet_feed-IsSilent req msg world same h none_there =
      feed-IsSilent req (ap is_request same ∙ not_request msg h none_there)
        (ap as_request same ∙ none_there) decode_template a world

  pub feed-FeedsBack :
      (req : RpcRequest) (msg : Message) (world : W)
      → req.msg ≡ msg
      → IsWellFormed msg
      → FeedsBack msg (feed decode_template a req world).0
  feed-FeedsBack req (request m) world same h =
      feed-request decode_template a req m world decodes same h.0 good
  feed-FeedsBack req (notify m) world same h = quiet_feed-IsSilent req (notify m) world same h refl
  feed-FeedsBack req (result m) world same h = quiet_feed-IsSilent req (result m) world same h refl
  feed-FeedsBack req (error m) world same h = quiet_feed-IsSilent req (error m) world same h refl

module _ {W : Type 0} where
  -- The balance of a state from which a task with a weight was taken out.
  abbrev pub Owes : (Weight → ℕ) → Session W → Type 0
  Owes taken s =
      All Fit s.tasks
      × (s.crashed ≡ false → (w : Weight) → sum_by (asks w) s.received ≡ taken w + load w s)

  after_feed-Holds :
      (o : Feedback × W) (s : Session W) → Owes (λ w. outcome_load w o.0) s → Holds (after_feed o s)
  after_feed-Holds (ok none, w) s (fit, owes) =
      (fit, λ live weight. omega (arith, owes live weight))
  after_feed-Holds (ok (some r), w) s (fit, owes) = (
    All-append Fit s.tasks _ fit (tt, tt),
    λ live weight. omega (
      arith,
      owes live weight,
      sum_by-append (task_load weight) s.tasks (to_send (answer r) ∷ []),
    ),
  )
  after_feed-Holds (err e, w) s (fit, owes) = (
    All-append Fit s.tasks _ fit (tt, tt),
    λ live weight. omega (
      arith,
      owes live weight,
      sum_by-append (task_load weight) s.tasks (to_end (some (context "actor.Feed" e)) ∷ []),
    ),
  )
  after_feed-Holds (panic r, w) s (fit, owes) = (fit, λ crashed. cc)

module _ {W : Type 0} (decode_template : Message → Result (List (String × Any))) (server : Server W)
    (id : String) (decodes : Decodes decode_template) (good : TreeBehaves server.actor) where
  pub msg_received-Holds :
      (r : Result Message) (s : Session W)
      → OnOk IsWellFormed r
      → Owes (λ w. asks w r) s
      → Holds (msg_received decode_template server id r s)
  unfolding msg_received
  msg_received-Holds (err e) s h (fit, owes) = (
    All-append Fit s.tasks _ fit (tt, tt),
    λ live weight. omega (
      arith,
      owes live weight,
      sum_by-append (task_load weight) s.tasks (to_end (some (foreign "bad jsonrpc message")) ∷ []),
    ),
  )
  msg_received-Holds (panic p) s h (fit, owes) = (fit, λ crashed. cc)
  msg_received-Holds (ok msg) s h (fit, owes) = elim (Bool-cases s.has_server) [
    | inl e ↦ simp e (
        after_feed-Holds (feed decode_template server.actor (session_request server id msg) s.world)
          s
          (
            fit,
            λ live weight.
                owes live weight
                ∙ ap (λ n. n + load weight s)
                    (sym (
                      FeedsBack-load weight msg _ (
                        feed-FeedsBack decode_template decodes server.actor good
                          (session_request server id msg) msg s.world refl h))),
          ))
    | inr e ↦ simp e (fit, λ crashed. cc)
  ]
