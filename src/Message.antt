-- ===== src/Message.antt =====
-- types.go and messageimpl.go: the four kinds of messages, their constructors and their accessors.
-- A message is a value, so a method that writes a field returns the new message; the `Error` of an
-- error message is not nil. `Log`, `EncodePretty` and `CacheKey` are left out.
mod Kinds
pub mod Laws
pub mod Document
pub mod Factory
mod Tests
use jsoff.Base.{
  ℕ, String, Bool, true, false, ◌||◌, Option, none, some, List, [], ◌∷◌, ◌==◌, nat_eq, is_some,
  if◌then◌else◌,
}
use Prim.Native.String
use jsoff.Value.{Any, nil, bool, list, items, to_items}
use jsoff.Result.{
  RpcError, Result, ok, err, panic, an_error, rpc, ◌>>=◌, err_empty_method, err_message_type,
}
unfoldable pub use Kinds.*

-- NewErrMsgType; its data is the value false.
unfoldable pub new_err_msg_type : String → RpcError
new_err_msg_type additional = record {
  code = err_message_type.code;
  message = String.◌++◌ "wrong message type " additional;
  data' = bool false;
}

abbrev pub wrong_type {ℓ} : {A : Type ℓ} → String → Result A
wrong_type additional = panic (an_error (rpc (new_err_msg_type additional)))

unfoldable pub must_id : Message → Result Any
must_id (request m) = ok m.id
must_id (notify m) = wrong_type "MustId"
must_id (result m) = ok m.id
must_id (error m) = ok m.id

unfoldable pub must_method : Message → Result String
must_method (request m) = ok m.method
must_method (notify m) = ok m.method
must_method (result m) = wrong_type "MustMethod"
must_method (error m) = wrong_type "MustMethod"

unfoldable pub must_params : Message → Result (List Any)
must_params (request m) = ok m.params
must_params (notify m) = ok m.params
must_params (result m) = wrong_type "MustParams"
must_params (error m) = wrong_type "MustParams"

unfoldable pub must_result : Message → Result Any
must_result (result m) = ok m.result
must_result _ = wrong_type "MustResult"

unfoldable pub must_error : Message → Result RpcError
must_error (error m) = ok m.error
must_error _ = wrong_type "MustError"

-- The three cases of `params any`: nil, a list, any other value.
abbrev pub param_list : Any → List Any
param_list nil = []
param_list (list xs) = items xs
param_list v = v ∷ []

abbrev pub is_param_list : Any → Bool
is_param_list nil = true
is_param_list (list xs) = true
is_param_list _ = false

unfoldable pub new_request_message : Any → String → Any → Result RequestMessage
new_request_message id method params =
    if method == ""
    then panic (an_error (rpc err_empty_method))
    else ok (record {
      base = record { kind = mk_request; trace_id = "" };
      id = id;
      method = method;
      params = param_list params;
      params_are_list = is_param_list params;
    })

unfoldable pub new_notify_message : String → Any → Result NotifyMessage
new_notify_message method params =
    if method == ""
    then panic (an_error (rpc err_empty_method))
    else ok (record {
      base = record { kind = mk_notify; trace_id = "" };
      method = method;
      params = param_list params;
      params_are_list = is_param_list params;
    })

abbrev pub with_trace : RequestMessage → String → RequestMessage
with_trace m t = record m { base = record m.base { trace_id = t } }

-- `Clone` hands the params on as a list, whatever `paramsAreList` of the original says.
unfoldable pub clone : RequestMessage → Any → Result RequestMessage
unfolding new_request_message
clone m new_id = do
  new_req ← new_request_message new_id m.method (list (to_items m.params))
  ok (with_trace new_req m.base.trace_id)

unfoldable pub raw_result_message : Any → Any → Option Header → ResultMessage
raw_result_message id value header = record {
  base = record { kind = mk_result; trace_id = "" };
  id = id;
  result = value;
  response_header = header;
}

unfoldable pub raw_error_message : Any → RpcError → Option Header → ErrorMessage
raw_error_message id errbody header = record {
  base = record { kind = mk_error; trace_id = "" };
  id = id;
  error = errbody;
  response_header = header;
}

-- `ReplaceId`
unfoldable pub replace_id : Message → Any → Result Message
unfolding clone raw_result_message raw_error_message set_trace_id
replace_id (request m) new_id = do new_req ← clone m new_id; ok (request new_req)
replace_id (notify m) new_id = wrong_type "ReplaceId"
replace_id (result m) new_id =
    ok
      (set_trace_id (result (raw_result_message new_id m.result m.response_header)) m.base.trace_id)
replace_id (error m) new_id =
    ok (set_trace_id (error (raw_error_message new_id m.error m.response_header)) m.base.trace_id)

-- A nil message is `none`.
unfoldable pub new_result_message : Option Message → Any → Result Message
unfolding raw_result_message must_id set_trace_id
new_result_message none value = ok (result (raw_result_message nil value none))
new_result_message (some reqmsg) value = do
  id ← must_id reqmsg
  ok (set_trace_id (result (raw_result_message id value none)) (trace_id reqmsg))

unfoldable pub new_error_message : Option Message → RpcError → Result Message
unfolding raw_error_message must_id set_trace_id
new_error_message none errbody = ok (error (raw_error_message nil errbody none))
new_error_message (some reqmsg) errbody = do
  id ← must_id reqmsg
  ok (set_trace_id (error (raw_error_message id errbody none)) (trace_id reqmsg))

-- `NewErrorMessageFromId`, `ToMessageFromId`
unfoldable pub new_error_message_from_id : Any → String → RpcError → Message
unfolding raw_error_message set_trace_id
new_error_message_from_id req_id trace errbody =
    set_trace_id (error (raw_error_message req_id errbody none)) trace

-- `RPCError.ToMessage` for a request, whose id is at hand.
unfoldable pub to_message : RpcError → RequestMessage → Message
unfolding raw_error_message set_trace_id
to_message e reqmsg = set_trace_id (error (raw_error_message reqmsg.id e none)) reqmsg.base.trace_id
