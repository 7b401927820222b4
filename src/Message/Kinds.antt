-- ===== src/Message/Kinds.antt =====
-- types.go and the kinds of messages in messageimpl.go.
use jsoff.Base.{ℕ, String, Bool, ◌||◌, Option, List, nat_eq}
use jsoff.Value.{Any}
use jsoff.Result.{RpcError}

abbrev pub Header : Type 0
Header = List (String × List String)

-- MKRequest, MKNotify, MKResult, MKError
abbrev pub mk_request : ℕ
mk_request = 0

abbrev pub mk_notify : ℕ
mk_notify = 1

abbrev pub mk_result : ℕ
mk_result = 2

abbrev pub mk_error : ℕ
mk_error = 3

pub record BaseMessage : Type 0 where
  pub kind : ℕ
  pub trace_id : String

pub record RequestMessage : Type 0 where
  pub base : BaseMessage
  pub id : Any
  pub method : String
  pub params : List Any
  pub params_are_list : Bool

pub record NotifyMessage : Type 0 where
  pub base : BaseMessage
  pub method : String
  pub params : List Any
  pub params_are_list : Bool

pub record ResultMessage : Type 0 where
  pub base : BaseMessage
  pub id : Any
  pub result : Any
  pub response_header : Option Header

pub record ErrorMessage : Type 0 where
  pub base : BaseMessage
  pub id : Any
  pub error : RpcError
  pub response_header : Option Header

pub data Message : Type 0 where
  request : RequestMessage → Message
  notify : NotifyMessage → Message
  result : ResultMessage → Message
  error : ErrorMessage → Message

abbrev pub base : Message → BaseMessage
base (request m) = m.base
base (notify m) = m.base
base (result m) = m.base
base (error m) = m.base

unfoldable pub is_request : Message → Bool
is_request m = nat_eq (base m).kind mk_request

unfoldable pub is_notify : Message → Bool
is_notify m = nat_eq (base m).kind mk_notify

-- By the source's name: a request or a notification.
unfoldable pub is_response : Message → Bool
unfolding is_request is_notify
is_response m = is_request m || is_notify m

unfoldable pub is_result : Message → Bool
is_result m = nat_eq (base m).kind mk_result

unfoldable pub is_error : Message → Bool
is_error m = nat_eq (base m).kind mk_error

unfoldable pub is_result_or_error : Message → Bool
unfolding is_result is_error
is_result_or_error m = is_result m || is_error m

abbrev pub trace_id : Message → String
trace_id m = (base m).trace_id

unfoldable pub set_trace_id : Message → String → Message
set_trace_id (request m) t = request (record m { base = record m.base { trace_id = t } })
set_trace_id (notify m) t = notify (record m { base = record m.base { trace_id = t } })
set_trace_id (result m) t = result (record m { base = record m.base { trace_id = t } })
set_trace_id (error m) t = error (record m { base = record m.base { trace_id = t } })
