-- ===== src/Net/Actor/Feed/Answer.antt =====
-- What a feedback must be to answer a request, and the functions that make such feedbacks.
use jsoff.Base.{String, Bool, true, false, Option, none, some, List, ◌≡◌, refl, sym, lookup, arith}
use mathlib.Core.Path.{subst}
use jsoff.Value.{Any}
use jsoff.Result.{
  RpcError, HttpResponse, Result, GoError, an_error, a_value, ok, err, panic, as_rpc, as_wrapped,
}
use jsoff.Message.{
  Message, RequestMessage, request, new_error_message_from_id, new_result_message, to_message,
  is_request, is_response, must_id, mk_request,
}
use jsoff.Message.Factory.Laws.{Answers}
use jsoff.Schema.Validator.{ErrorPos}
use jsoff.Net.Actor.{
  RpcRequest, Reply, plain, message, MethodHandler, MissingCallback, Node, Actor, actor, Children,
  no_children, add,
}
use jsoff.Net.Actor.Feed.{
  Feedback, method_not_found, wrap_result, wrap_request, wrap_error, recovered, refused,
  error_pos_message,
}

-- A message that answers the request.
abbrev pub IsAnswered : RequestMessage → Feedback → Type 0
IsAnswered m f = (r : Message) × (f ≡ ok (some r)) × Answers r (request m)

-- An error that is turned into an error message: not a response to pass on to the transport.
abbrev pub IsReported : GoError → Type 0
IsReported e = as_rpc e ≡ none → as_wrapped e ≡ none

-- What a callback returns if it behaves: a value that is no message, an error that is reported, or
-- a panic with such an error where the actor recovers from panics.
abbrev pub Behaves : Bool → Result Reply → Type 0
Behaves recover (ok (plain v)) = Unit
Behaves recover (ok (message m)) = ⊥
Behaves recover (err e) = IsReported e
Behaves recover (panic (an_error e)) = (recover ≡ true) × IsReported e
Behaves recover (panic (a_value v)) = ⊥

-- The decoding of a template succeeds.
abbrev pub Decodes : (Message → Result (List (String × Any))) → Type 0
Decodes decode_template = (msg : Message) → (m : List (String × Any)) × (decode_template msg ≡ ok m)

module _ {W : Type 0} where
  abbrev pub HandlerBehaves : Bool → Option (MethodHandler W) → Type 0
  HandlerBehaves recover none = Unit
  HandlerBehaves recover (some h) =
      (req : RpcRequest) (params : List Any) (w : W) → Behaves recover (h.callback req params w).0

  abbrev pub MissingBehaves : Bool → Option (MissingCallback W) → Type 0
  MissingBehaves recover none = Unit
  MissingBehaves recover (some h) = (req : RpcRequest) (w : W) → Behaves recover (h req w).0

  abbrev pub NodeBehaves : Node W → Type 0
  NodeBehaves n =
      ((method : String) → HandlerBehaves n.recover_from_panic (lookup method n.method_handlers))
      × MissingBehaves n.recover_from_panic n.missing_handler

  -- Every callback of the tree behaves.
  abbrev mutual
    pub TreeBehaves : Actor W → Type 0
    TreeBehaves (actor n cs) = NodeBehaves n × ChildrenBehave cs

    pub ChildrenBehave : Children W → Type 0
    ChildrenBehave no_children = Unit
    ChildrenBehave (add c cs) = TreeBehaves c × ChildrenBehave cs

module _ (m : RequestMessage) (kind : m.base.kind ≡ mk_request) where
  pub is_request-request : is_request (request m) ≡ true
  unfolding is_request
  is_request-request = ground arith

  pub is_response-request : is_response (request m) ≡ true
  unfolding is_response is_request
  is_response-request = ground arith

  -- The same answer for the message of a request that carries it.
  pub for_request :
      (req : RpcRequest) (f : Message → Feedback)
      → req.msg ≡ request m
      → IsAnswered m (f (request m))
      → IsAnswered m (f req.msg)
  for_request req f same h = subst (λ msg. IsAnswered m (f msg)) (sym same) h

  pub wrap_result-request : (res : Result Reply) → wrap_result res (request m) ≡ wrap_request res m
  unfolding wrap_result
  wrap_result-request res = rw is_request-request

  pub reported :
      (e : GoError) (o : Option RpcError) (o' : Option HttpResponse)
      → as_rpc e ≡ o
      → as_wrapped e ≡ o'
      → (o ≡ none → o' ≡ none)
      → IsAnswered m (wrap_error e m)
  unfolding to_message must_id
  reported e (some r) o' found _ _ = rw (found, wrap_error) (_, refl, (refl, refl))
  reported e none none missed missed' _ =
      rw (missed, wrap_error) (rw (missed', wrap_error) (_, refl, (refl, refl)))
  reported e none (some x) _ _ h = cc (h refl)

  pub wrap_error-IsAnswered :
      (e : GoError) → IsReported e → IsAnswered m (wrap_result (err e) (request m))
  wrap_error-IsAnswered e h =
      rw wrap_result-request (reported e (as_rpc e) (as_wrapped e) refl refl h)

  pub wrap_plain-IsAnswered : (v : Any) → IsAnswered m (wrap_result (ok (plain v)) (request m))
  unfolding new_result_message must_id
  wrap_plain-IsAnswered v = rw wrap_result-request (_, refl, (refl, refl))

  pub recovered-IsAnswered :
      (recover : Bool) (res : Result Reply)
      → Behaves recover res
      → IsAnswered m (recovered recover res (request m))
  recovered-IsAnswered true (ok (plain v)) h = wrap_plain-IsAnswered v
  recovered-IsAnswered true (err e) h = wrap_error-IsAnswered e h
  recovered-IsAnswered true (panic (an_error e)) h = wrap_error-IsAnswered e h.1
  recovered-IsAnswered false (ok (plain v)) h = wrap_plain-IsAnswered v
  recovered-IsAnswered false (err e) h = wrap_error-IsAnswered e h
  recovered-IsAnswered false (panic (an_error e)) h = cc
  recovered-IsAnswered recover (ok (message r)) h = absurd h
  recovered-IsAnswered recover (panic (a_value v)) h = absurd h

  pub refused-IsAnswered : (pos : ErrorPos) → IsAnswered m (refused pos (request m))
  unfolding refused error_pos_message to_message must_id
  refused-IsAnswered pos = (_, refl, (refl, refl))

  pub not_found-IsAnswered : IsAnswered m (method_not_found (request m))
  unfolding method_not_found must_id new_error_message_from_id
  not_found-IsAnswered = rw is_request-request (_, refl, (refl, refl))
