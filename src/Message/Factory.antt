-- ===== src/Message/Factory.antt =====
-- messagefactory.go: constructors that refuse a null id where the options say so. The refusal is a
-- panic with a text, which is no error value.
pub mod Laws
use jsoff.Base.{String, Bool, true, false, Option, none, some, ◌&&◌, if◌then◌else◌}
use jsoff.Value.{Any, str}
use jsoff.Result.{RpcError, Result, ok, panic, a_value, ◌>>=◌}
use jsoff.Message.{
  Message, RequestMessage, NotifyMessage, must_id, new_request_message, new_notify_message,
  new_result_message, new_error_message,
}
use jsoff.Message.Document.{MessageOptions, is_nil, decode_message}

abbrev refuse {ℓ} : {A : Type ℓ} → String → Result A
refuse text = panic (a_value (str text))

-- `opts.IdNotNull && (reqmsg == nil || reqmsg.MustId() == nil)`
unfoldable pub lacks_id : MessageOptions → Option Message → Result Bool
lacks_id opts reqmsg = elim opts.id_not_null [
  | false ↦ ok false
  | true ↦ elim reqmsg [ none ↦ ok true | some m ↦ (do id ← must_id m; ok (is_nil id)) ]
]

-- `Parse` and `Decode`, over the document.
unfoldable pub factory_decode : MessageOptions → Any → Result Message
factory_decode opts doc = decode_message opts doc

unfoldable pub factory_new_request : MessageOptions → Any → String → Any → Result RequestMessage
factory_new_request opts id method params =
    if opts.id_not_null && is_nil id
    then refuse "Request id cannot be null"
    else new_request_message id method params

unfoldable pub factory_new_notify : MessageOptions → String → Any → Result NotifyMessage
factory_new_notify opts method params = new_notify_message method params

unfoldable pub factory_new_result : MessageOptions → Option Message → Any → Result Message
factory_new_result opts reqmsg value = do
  lacking ← lacks_id opts reqmsg
  if lacking then refuse "Result id cannot be null" else new_result_message reqmsg value

unfoldable pub factory_new_error : MessageOptions → Option Message → RpcError → Result Message
factory_new_error opts reqmsg errbody = do
  lacking ← lacks_id opts reqmsg
  if lacking then refuse "Error id cannot be null" else new_error_message reqmsg errbody
