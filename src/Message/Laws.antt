-- ===== src/Message/Laws.antt =====
-- What the constructors and accessors of a message do on each kind of message.
use jsoff.Base.{
  String, true, false, Option, none, some, List, [], ◌∷◌, ◌≡◌, refl, eq_iff, lookup, arith, ◌↔◌,
}
use jsoff.Value.{Any, list, item, end, object, fields}
use jsoff.Result.{RpcError, Result, ok, panic, an_error, rpc}
use jsoff.Message.{
  Message, RequestMessage, request, notify, result, error, must_id, must_method, must_params,
  must_result, must_error, is_notify, is_response, is_result, is_error, clone, replace_id,
  new_err_msg_type,
}
use jsoff.Message.Document.{document}
use jsoff.Message.Document.RoundTrip.{IsWellFormed, items-to_items}

-- The message with another id, and nothing else changed but that the params of a request count
-- as a list.
abbrev pub replaced : Message → Any → Result Message
replaced (request m) id = ok (request (record m { id = id; params_are_list = true }))
replaced (notify m) id = panic (an_error (rpc (new_err_msg_type "ReplaceId")))
replaced (result m) id = ok (result (record m { id = id }))
replaced (error m) id = ok (error (record m { id = id }))

-- `ReplaceId` of a well-formed message returns the message with the new id; trace id, method,
-- params, result, error and header stay, and the params of a request count as a list from then on.
-- Of a notification it panics with the error for a wrong message type.
pub replace_id-eq-replaced :
    (m : Message) (id : Any) → IsWellFormed m → replace_id m id ≡ replaced m id
unfolding replace_id
replace_id-eq-replaced (request m) id (kind, valid, named, fit) =
    ground (arith, eq_iff m.method "", items-to_items m.params)
replace_id-eq-replaced (notify m) id h = refl
replace_id-eq-replaced (result m) id (kind, valid, header) = ground arith
replace_id-eq-replaced (error m) id (kind, valid, header) = ground arith

-- The params that a document shows.
abbrev pub shown : Any → Option Any
shown (object m) = lookup "params" (fields m)
shown _ = none

-- A request whose only param stands alone shows the param itself in its document; the document
-- of its clone shows a list of that param.
pub clone-shows-list :
    (m : RequestMessage) (p id : Any) (r : RequestMessage)
    → m.params ≡ p ∷ []
    → m.params_are_list ≡ false
    → clone m id ≡ ok r
    → (shown (document (request m)) ≡ some p)
      × (shown (document (request r)) ≡ some (list (item p end)))
unfolding clone document lookup
clone-shows-list m p id r one alone h =
    (ground (arith, eq_iff m.method ""), ground (arith, eq_iff m.method ""))

-- Each accessor returns exactly for the messages that have its field, and panics for the others.
pub accessors_iff :
    (m : Message)
    → IsWellFormed m
    → (((id : Any) × (must_id m ≡ ok id)) ↔ (is_notify m ≡ false))
      × (((t : String) × (must_method m ≡ ok t)) ↔ (is_response m ≡ true))
      × (((ps : List Any) × (must_params m ≡ ok ps)) ↔ (is_response m ≡ true))
      × (((v : Any) × (must_result m ≡ ok v)) ↔ (is_result m ≡ true))
      × (((e : RpcError) × (must_error m ≡ ok e)) ↔ (is_error m ≡ true))
unfolding must_id must_method must_params must_result must_error is_notify is_response is_result
    is_error
accessors_iff (request m) (kind, _, _, _) = (
  (λ _. ground arith, λ _. (m.id, refl)),
  (λ _. ground arith, λ _. (m.method, refl)),
  (λ _. ground arith, λ _. (m.params, refl)),
  (λ (_, e). cc, λ e. absurd (ground arith)),
  (λ (_, e). cc, λ e. absurd (ground arith)),
)
accessors_iff (notify m) (kind, _, _) = (
  (λ (_, e). cc, λ e. absurd (ground arith)),
  (λ _. ground arith, λ _. (m.method, refl)),
  (λ _. ground arith, λ _. (m.params, refl)),
  (λ (_, e). cc, λ e. absurd (ground arith)),
  (λ (_, e). cc, λ e. absurd (ground arith)),
)
accessors_iff (result m) (kind, _, _) = (
  (λ _. ground arith, λ _. (m.id, refl)),
  (λ (_, e). cc, λ e. absurd (ground arith)),
  (λ (_, e). cc, λ e. absurd (ground arith)),
  (λ _. ground arith, λ _. (m.result, refl)),
  (λ (_, e). cc, λ e. absurd (ground arith)),
)
accessors_iff (error m) (kind, _, _) = (
  (λ _. ground arith, λ _. (m.id, refl)),
  (λ (_, e). cc, λ e. absurd (ground arith)),
  (λ (_, e). cc, λ e. absurd (ground arith)),
  (λ (_, e). cc, λ e. absurd (ground arith)),
  (λ _. ground arith, λ _. (m.error, refl)),
)
