-- ===== src/Net/Actor/Feed.antt =====
-- `Feed` of net/request.go and the methods that it calls, with `MessageMap` of messageimpl.go. What
-- the package mapstructure makes of a message's template is the parameter `decode_template`.
pub mod Registry
pub mod Routing
pub mod Replies
pub mod Answer
pub mod Answered
pub mod Guard
use Prim.Native.String
use jsoff.Base.{
  String, Bool, true, false, Option, none, some, List, [], ◌∷◌, ◌++◌, ◌==◌, lookup, store, is_some,
  if◌then◌else◌, not, ◌&&◌,
}
use jsoff.Value.{Any, nil, object, str, fields, to_fields}
use jsoff.Result.{
  RpcError, GoError, rpc, wrapped, invalid, foreign, Raised, an_error, a_value, Result, ok, err,
  panic, ◌>>=◌, err_method_not_found, err_internal_error, err_invalid_schema, as_rpc, as_wrapped,
}
use jsoff.Message.{
  Message, RequestMessage, request, notify, result, error, is_request, is_response, must_id,
  must_method, must_params, trace_id, new_result_message, new_error_message_from_id, to_message,
}
use jsoff.Schema.{Schema}
use jsoff.Schema.Validator.{ErrorPos, Outcome, done, new_schema_validator}
use jsoff.Schema.Scan.{validate}
use jsoff.Net.Actor.{
  RpcRequest, Reply, plain, message, MethodHandler, MissingCallback, Node, Actor, actor, Children,
  no_children, add, has,
}

-- A function that returns `(jsoff.Message, error)`; a nil message is `none`.
abbrev pub Feedback : Type 0
Feedback = Result (Option Message)

abbrev pub join : List String → String
join [] = ""
join (s ∷ ss) = String.◌++◌ s (join ss)

-- `ErrorPos.Error`
unfoldable pub error_text : ErrorPos → String
error_text pos =
    String.◌++◌ "Validation Error: " (String.◌++◌ (join pos.paths) (String.◌++◌ " " pos.hint))

-- `ErrorPos.ToMessage`
unfoldable pub error_pos_message : ErrorPos → RequestMessage → Message
error_pos_message pos reqmsg =
    to_message (record err_invalid_schema { message = error_text pos }) reqmsg

-- `wrapResult` for a request message and an error.
abbrev pub wrap_error : GoError → RequestMessage → Feedback
wrap_error e reqmsg = elim (as_rpc e) [
  | some rpc_err ↦ ok (some (to_message rpc_err reqmsg))
  | none ↦ elim (as_wrapped e) [
    | some response ↦ err (wrapped response)
    | none ↦ ok (some (to_message err_internal_error reqmsg))
  ]
]

abbrev pub wrap_reply : Reply → RequestMessage → Feedback
wrap_reply (message m) reqmsg = ok (some m)
wrap_reply (plain v) reqmsg = do
  resmsg ← new_result_message (some (request reqmsg)) v
  ok (some resmsg)

abbrev pub wrap_request : Result Reply → RequestMessage → Feedback
wrap_request (ok reply) reqmsg = wrap_reply reply reqmsg
wrap_request (err e) reqmsg = wrap_error e reqmsg
wrap_request (panic r) reqmsg = panic r

-- `Panicf` of the logger
abbrev pub not_a_request : Feedback
not_a_request = panic (a_value (str "convert to request message failed"))

abbrev pub as_request : Message → Option RequestMessage
as_request (request m) = some m
as_request _ = none

abbrev pub without_response : Result Reply → Feedback
without_response (ok reply) = ok none
without_response (err e) = err e
without_response (panic r) = panic r

-- `wrapResult`
unfoldable pub wrap_result : Result Reply → Message → Feedback
wrap_result res msg =
    if not (is_request msg)
    then without_response res
    else elim (as_request msg) [ some reqmsg ↦ wrap_request res reqmsg | none ↦ not_a_request ]

-- A deferred function that recovers from a panic with an error, and panics again with others.
abbrev pub recovered : Bool → Result Reply → Message → Feedback
recovered true (panic (an_error e)) msg = wrap_result (err e) msg
recovered true (panic (a_value v)) msg = panic (a_value v)
recovered true res msg = wrap_result res msg
recovered false res msg = wrap_result res msg

unfoldable pub method_not_found : Message → Feedback
method_not_found msg =
    if is_request msg
    then (do
      id ← must_id msg
      ok (some (new_error_message_from_id id (trace_id msg) err_method_not_found)))
    else ok none

module _ {W : Type 0} where
  -- `recoverCallHandler`
  unfoldable pub recover_call_handler :
      Node W → MethodHandler W → RpcRequest → List Any → W → Feedback × W
  recover_call_handler n h req params w =
      let (res, w') = h.callback req params w in (recovered n.recover_from_panic res req.msg, w')

  -- `recoverCallMissingHandler`
  unfoldable pub recover_call_missing_handler :
      Node W → MissingCallback W → RpcRequest → W → Feedback × W
  recover_call_missing_handler n missing req w =
      let (res, w') = missing req w in (recovered n.recover_from_panic res req.msg, w')

  -- A message that is neither a request nor a notification; a panic is not recovered from.
  unfoldable pub feed_other : Option (MissingCallback W) → RpcRequest → W → Feedback × W
  feed_other none req w = (ok none, w)
  feed_other (some missing) req w = let (res, w') = missing req w in (wrap_result res req.msg, w')

  -- No actor of the tree has a handler of the method.
  unfoldable pub feed_missing : Node W → RpcRequest → W → Feedback × W
  feed_missing n req w = elim n.missing_handler [
    | some missing ↦ recover_call_missing_handler n missing req w
    | none ↦ (method_not_found req.msg, w)
  ]

abbrev pub id_value : Option Any → Option Any
id_value (some (object obj)) = lookup "Value" (fields obj)
id_value _ = none

abbrev pub with_id : Option Any → List (String × Any) → List (String × Any)
with_id none m = m
with_id (some id) m = store "id" id m

-- `MessageMap`: an id that was decoded to the structure of its type gives way to its value.
unfoldable pub message_map : Result (List (String × Any)) → Result (List (String × Any))
message_map decoded = do m ← decoded; ok (with_id (id_value (lookup "id" m)) m)

abbrev pub verdict_of : Outcome (Option ErrorPos) → Result (Option ErrorPos)
verdict_of (done verdict v) = ok verdict
verdict_of Outcome.panic = panic (an_error (foreign "pop path"))

-- The answer to a message that its schema refuses.
unfoldable pub refused : ErrorPos → Message → Feedback
refused pos msg = elim (as_request msg) [
  | some reqmsg ↦ ok (some (error_pos_message pos reqmsg))
  | none ↦ err (invalid pos.paths pos.hint)
]

module _ {W : Type 0} where
  abbrev pub after_validation :
      Result (Option ErrorPos) → Node W → MethodHandler W → RpcRequest → List Any → W → Feedback × W
  after_validation (ok none) n h req params w = recover_call_handler n h req params w
  after_validation (ok (some pos)) n h req params w = (refused pos req.msg, w)
  after_validation (err e) n h req params w = (err e, w)
  after_validation (panic r) n h req params w = (panic r, w)

  abbrev pub schema_in_use : Node W → MethodHandler W → Option Schema
  schema_in_use n h = if n.validate_schema then h.schema else none

  abbrev pub or_missing : Option (Feedback × W) → Node W → RpcRequest → W → Feedback × W
  or_missing (some answer) n req w = answer
  or_missing none n req w = feed_missing n req w

  abbrev pub with_params :
      Result String → Result (List Any) → (String → List Any → Feedback × W) → W → Feedback × W
  with_params (ok method) (ok params) k w = k method params
  with_params (ok method) (err e) k w = (err e, w)
  with_params (ok method) (panic r) k w = (panic r, w)
  with_params (err e) params k w = (err e, w)
  with_params (panic r) params k w = (panic r, w)

-- The parameter of this section is what mapstructure decodes a template into.
module _ (decode_template : Message → Result (List (String × Any))) where
  -- The validation in `Feed`: `ok none` lets the message pass.
  unfoldable pub validate_message : Schema → Message → Result (Option ErrorPos)
  validate_message s msg = do
    m ← message_map (decode_template msg)
    verdict_of (validate s (object (to_fields m)) new_schema_validator)

module _ {W : Type 0} (decode_template : Message → Result (List (String × Any))) where
  -- The branch of `Feed` for a method that the actor handles.
  unfoldable pub feed_handler : Node W → MethodHandler W → RpcRequest → List Any → W → Feedback × W
  feed_handler n h req params w = elim (schema_in_use n h) [
    | none ↦ recover_call_handler n h req params w
    | some s ↦ after_validation (validate_message decode_template s req.msg) n h req params w
  ]

  abbrev pub feed_own :
      Option (MethodHandler W)
      → (W → Feedback × W)
      → Node W
      → RpcRequest
      → List Any
      → W
      → Feedback × W
  feed_own (some h) rest n req params w = feed_handler n h req params w
  feed_own none rest n req params w = rest w

  -- `Feed`; the first child that has a handler of the method is fed in turn.
  unfoldable mutual
    pub feed : Actor W → RpcRequest → W → Feedback × W
    feed (actor n cs) req w =
        if not (is_response req.msg)
        then feed_other n.missing_handler req w
        else with_params (must_method req.msg) (must_params req.msg)
            (λ method params.
              feed_own (lookup method n.method_handlers)
                (λ w'. or_missing (feed_children cs method req w') n req w') n req params w)
            w

    pub feed_children : Children W → String → RpcRequest → W → Option (Feedback × W)
    feed_children no_children method req w = none
    feed_children (add c cs) method req w = elim (has c method) [
      | true ↦ some (feed c req w)
      | false ↦ feed_children cs method req w
    ]
