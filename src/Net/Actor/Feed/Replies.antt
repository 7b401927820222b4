-- ===== src/Net/Actor/Feed/Replies.antt =====
-- Requests are answered, once and with their own id; notifications are not.
use jsoff.Base.{
  String, Bool, true, false, Option, none, some, List, ◌≡◌, ◌≢◌, ap, ◌∙◌, lookup, arith, Bool-cases,
  Option-cases, inl, inr,
}
use jsoff.Value.{Any}
use jsoff.Result.{Result, an_error, a_value, ok, err, panic}
use jsoff.Message.{
  Message, NotifyMessage, notify, is_request, is_response, must_method, must_params, mk_notify,
}
use jsoff.Schema.Validator.{ErrorPos}
use jsoff.Net.Actor.{
  RpcRequest, Reply, MethodHandler, MissingCallback, Node, Actor, actor, Children, no_children, add,
  has,
}
use jsoff.Net.Actor.Feed.{
  Feedback, feed, feed_children, feed_missing, feed_other, feed_handler, method_not_found,
  or_missing, feed_own, with_params, as_request, wrap_result, recovered, refused, validate_message,
  after_validation, schema_in_use, recover_call_handler, recover_call_missing_handler,
}

abbrev pub IsSilent : Feedback → Type 0
IsSilent f = (r : Message) → f ≢ ok (some r)

module _ (msg : Message) (quiet : is_request msg ≡ false) where
  wrap_result-IsSilent : (res : Result Reply) → IsSilent (wrap_result res msg)
  unfolding wrap_result
  wrap_result-IsSilent (ok reply) r = rw quiet (ground arith)
  wrap_result-IsSilent (err e) r = ground arith
  wrap_result-IsSilent (panic p) r = ground arith

  recovered-IsSilent : (b : Bool) (res : Result Reply) → IsSilent (recovered b res msg)
  recovered-IsSilent true (ok reply) = wrap_result-IsSilent (ok reply)
  recovered-IsSilent true (err e) = wrap_result-IsSilent (err e)
  recovered-IsSilent true (panic (an_error e)) = wrap_result-IsSilent (err e)
  recovered-IsSilent true (panic (a_value v)) = λ r e. cc
  recovered-IsSilent false res = wrap_result-IsSilent res

-- What `Feed` does with a message that is no request stays silent in each of its parts.
module _ {W : Type 0} (req : RpcRequest) (quiet : is_request req.msg ≡ false)
    (no_request : as_request req.msg ≡ none) where
  call-IsSilent :
      (n : Node W) (h : MethodHandler W) (params : List Any) (w : W)
      → IsSilent (recover_call_handler n h req params w).0
  unfolding recover_call_handler
  call-IsSilent n h params w =
      recovered-IsSilent req.msg quiet n.recover_from_panic (h.callback req params w).0

  feed_missing-IsSilent : (n : Node W) (w : W) → IsSilent (feed_missing n req w).0
  unfolding feed_missing method_not_found recover_call_missing_handler
  feed_missing-IsSilent n w r = elim (Option-cases n.missing_handler) [
    | inl e ↦ rw (e, feed_missing, quiet) (λ h. cc)
    | inr (h, e) ↦
        rw (e, feed_missing) (recovered-IsSilent req.msg quiet n.recover_from_panic (h req w).0 r)
  ]

  feed_other-IsSilent : (o : Option (MissingCallback W)) (w : W) → IsSilent (feed_other o req w).0
  unfolding feed_other
  feed_other-IsSilent none w r = λ e. cc
  feed_other-IsSilent (some h) w r = wrap_result-IsSilent req.msg quiet (h req w).0 r

  after_validation-IsSilent :
      (v : Result (Option ErrorPos)) (n : Node W) (h : MethodHandler W) (params : List Any) (w : W)
      → IsSilent (after_validation v n h req params w).0
  unfolding refused
  after_validation-IsSilent (ok none) n h params w r = call-IsSilent n h params w r
  after_validation-IsSilent (ok (some pos)) n h params w r = rw (no_request, refused) (λ e. cc)
  after_validation-IsSilent (err e) n h params w r = λ e'. cc
  after_validation-IsSilent (panic p) n h params w r = λ e. cc

  module _ (decode_template : Message → Result (List (String × Any))) where
    feed_handler-IsSilent :
        (n : Node W) (h : MethodHandler W) (params : List Any) (w : W)
        → IsSilent (feed_handler decode_template n h req params w).0
    unfolding feed_handler
    feed_handler-IsSilent n h params w r = elim (Option-cases (schema_in_use n h)) [
      | inl e ↦ rw (e, feed_handler) (call-IsSilent n h params w r)
      | inr (s, e) ↦
          rw (e, feed_handler)
            (after_validation-IsSilent (validate_message decode_template s req.msg) n h params w r)
    ]

    abbrev SilentChild : Option (Feedback × W) → Type 0
    SilentChild none = Unit
    SilentChild (some (f, w)) = IsSilent f

    own-IsSilent :
        (n : Node W) (h : Option (MethodHandler W)) (o : W → Option (Feedback × W))
        (params : List Any) (w : W)
        → SilentChild (o w)
        → IsSilent (feed_own decode_template h (λ w'. or_missing (o w') n req w') n req params w).0
    own-IsSilent n (some h) o params w later r = feed_handler-IsSilent n h params w r
    own-IsSilent n none o params w later r = elim (Option-cases (o w)) [
      | inl e ↦ rw (e, or_missing) (feed_missing-IsSilent n w r)
      | inr ((f, w'), e) ↦ rw (e, or_missing) ((rw e at later) r)
    ]

    params-IsSilent :
        (method : Result String) (params : Result (List Any)) (k : String → List Any → Feedback × W)
        (w : W)
        → ((t : String) (ps : List Any) → IsSilent (k t ps).0)
        → IsSilent (with_params method params k w).0
    params-IsSilent (ok t) (ok ps) k w later = later t ps
    params-IsSilent (ok t) (err e) k w later = λ r h. cc
    params-IsSilent (ok t) (panic p) k w later = λ r h. cc
    params-IsSilent (err e) params k w later = λ r h. cc
    params-IsSilent (panic p) params k w later = λ r h. cc

    mutual
      unfolding feed

      pub feed-IsSilent : (a : Actor W) (w : W) → IsSilent (feed decode_template a req w).0
      feed-IsSilent (actor n cs) w r = elim (Bool-cases (is_response req.msg)) [
        | inl e ↦ rw e (
            params-IsSilent (must_method req.msg) (must_params req.msg) _ w
              (λ method params.
                own-IsSilent n (lookup method n.method_handlers)
                  (feed_children decode_template cs method req) params w
                  (children-IsSilent cs method w))
              r)
        | inr e ↦ rw e (feed_other-IsSilent n.missing_handler w r)
      ]

      children-IsSilent :
          (cs : Children W) (method : String) (w : W)
          → SilentChild (feed_children decode_template cs method req w)
      children-IsSilent no_children method w = tt
      children-IsSilent (add c cs) method w = elim (Bool-cases (has c method)) [
        | inl e ↦ rw (e, feed_children, SilentChild) (feed-IsSilent c w)
        | inr e ↦ rw (e, feed_children, SilentChild) (children-IsSilent cs method w)
      ]

quiet-notify : (m : NotifyMessage) → m.base.kind ≡ mk_notify → is_request (notify m) ≡ false
unfolding is_request
quiet-notify m kind = ground arith

-- A notification is never answered: no actor returns a message for one, whatever its callbacks do.
pub feed-notify :
    {W : Type 0} (decode_template : Message → Result (List (String × Any))) (a : Actor W)
    (req : RpcRequest) (m : NotifyMessage) (w : W) (r : Message)
    → req.msg ≡ notify m
    → m.base.kind ≡ mk_notify
    → (feed decode_template a req w).0 ≢ ok (some r)
feed-notify decode_template a req m w r same kind =
    feed-IsSilent req (ap is_request same ∙ quiet-notify m kind) (ap as_request same)
      decode_template a w r
