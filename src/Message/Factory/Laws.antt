-- ===== src/Message/Factory/Laws.antt =====
-- What the factory's messages have.
use jsoff.Base.{String, true, Option, none, some, ◌≡◌, ◌≢◌, ◌⊎◌, inl, inr, arith}
use jsoff.Value.{Any, nil}
use jsoff.Result.{RpcError, ok}
use jsoff.Message.{
  Message, RequestMessage, request, notify, result, error, trace_id, must_id, new_request_message,
  new_result_message, new_error_message,
}
use jsoff.Message.Document.{MessageOptions}
use jsoff.Message.Factory.{lacks_id, factory_new_request, factory_new_result, factory_new_error}

-- A response answers a request: it carries the id and the trace id of the message that it answers.
abbrev pub Answers : Message → Message → Type 0
Answers response reqmsg =
    (must_id response ≡ must_id reqmsg) × (trace_id response ≡ trace_id reqmsg)

result-Answers :
    (reqmsg r : Message) (value : Any)
    → new_result_message (some reqmsg) value ≡ ok r
    → Answers r reqmsg
unfolding new_result_message must_id
result-Answers (request m) r value h = ground arith
result-Answers (notify m) r value h = cc
result-Answers (result m) r value h = ground arith
result-Answers (error m) r value h = ground arith

error-Answers :
    (reqmsg r : Message) (e : RpcError)
    → new_error_message (some reqmsg) e ≡ ok r
    → Answers r reqmsg
unfolding new_error_message must_id
error-Answers (request m) r e h = ground arith
error-Answers (notify m) r e h = cc
error-Answers (result m) r e h = ground arith
error-Answers (error m) r e h = ground arith

-- A result or error message that is made for a message carries the id and the trace id of that
-- message.
pub new_response-Answers :
    (reqmsg r : Message) (value : Any) (e : RpcError)
    → (new_result_message (some reqmsg) value ≡ ok r) ⊎ (new_error_message (some reqmsg) e ≡ ok r)
    → Answers r reqmsg
new_response-Answers reqmsg r value e (inl h) = result-Answers reqmsg r value h
new_response-Answers reqmsg r value e (inr h) = error-Answers reqmsg r e h

module _ (opts : MessageOptions) (strict : opts.id_not_null ≡ true) where
  request-id :
      (id params : Any) (method : String) (m : RequestMessage)
      → factory_new_request opts id method params ≡ ok m
      → (m.id ≡ id) × (m.id ≢ nil)
  unfolding factory_new_request new_request_message
  request-id id params method m h = ground arith

  result-id :
      (o : Option Message) (value : Any) (r : Message)
      → factory_new_result opts o value ≡ ok r
      → must_id r ≢ ok nil
  unfolding factory_new_result lacks_id new_result_message must_id
  result-id none value r h = ground arith
  result-id (some (request m)) value r h = ground arith
  result-id (some (notify m)) value r h = ground arith
  result-id (some (result m)) value r h = ground arith
  result-id (some (error m)) value r h = ground arith

  error-id :
      (o : Option Message) (e : RpcError) (r : Message)
      → factory_new_error opts o e ≡ ok r
      → must_id r ≢ ok nil
  unfolding factory_new_error lacks_id new_error_message must_id
  error-id none e r h = ground arith
  error-id (some (request m)) e r h = ground arith
  error-id (some (notify m)) e r h = ground arith
  error-id (some (result m)) e r h = ground arith
  error-id (some (error m)) e r h = ground arith

-- With the option that ids are not null, the factory makes no request, no result and no error
-- message with a null id; a request that it makes has the id that it was given.
pub factory-id :
    (opts : MessageOptions)
    → opts.id_not_null ≡ true
    → ((id params : Any) (method : String) (m : RequestMessage)
        → factory_new_request opts id method params ≡ ok m
        → (m.id ≡ id) × (m.id ≢ nil))
      × ((o : Option Message) (value : Any) (r : Message)
          → factory_new_result opts o value ≡ ok r
          → must_id r ≢ ok nil)
      × ((o : Option Message) (e : RpcError) (r : Message)
          → factory_new_error opts o e ≡ ok r
          → must_id r ≢ ok nil)
factory-id opts strict = (request-id opts strict, result-id opts strict, error-id opts strict)
