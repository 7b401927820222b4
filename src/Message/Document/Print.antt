-- ===== src/Message/Document/Print.antt =====
-- messagemarshal.go and the methods `Interface` of messageimpl.go: a message as a JSON document.
use jsoff.Base.{String, Bool, true, false, List, [], ◌∷◌, ◌==◌, if◌then◌else◌}
use jsoff.Value.{Any, nil, int, str, list, object, to_items, to_fields}
use jsoff.Result.{RpcError}
use jsoff.Message.{Message, request, notify, result, error}

-- `json:"traceid,omitempty"`
unfoldable pub trace_field : String → List (String × Any)
trace_field t = if t == "" then [] else ("traceid", str t) ∷ []

-- `json:"data,omitempty"` of an interface
unfoldable pub data_field : Any → List (String × Any)
data_field nil = []
data_field v = ("data", v) ∷ []

-- The value that a template's `Params` gets.
abbrev pub params_value : Bool → List Any → Any
params_value as_list [] = list (to_items [])
params_value true (p ∷ ps) = list (to_items (p ∷ ps))
params_value false (p ∷ ps) = p

unfoldable pub error_document : RpcError → Any
error_document e =
    object (to_fields (("code", int e.code) ∷ ("message", str e.message) ∷ data_field e.data'))

-- `json.Marshal(msg.Interface())`: the fields of the template of the message's kind.
unfoldable pub document : Message → Any
unfolding error_document
document (request m) = object (
    to_fields (
      ("jsonrpc", str "2.0")
      ∷ ("method", str m.method)
      ∷ ("id", m.id)
      ∷ ("params", params_value m.params_are_list m.params)
      ∷ trace_field m.base.trace_id))
document (notify m) = object (
    to_fields (
      ("jsonrpc", str "2.0")
      ∷ ("method", str m.method)
      ∷ ("params", params_value m.params_are_list m.params)
      ∷ trace_field m.base.trace_id))
document (result m) = object (
    to_fields
      (("jsonrpc", str "2.0") ∷ ("id", m.id) ∷ ("result", m.result) ∷ trace_field m.base.trace_id))
document (error m) = object (
    to_fields (
      ("jsonrpc", str "2.0")
      ∷ ("id", m.id)
      ∷ ("error", error_document m.error)
      ∷ trace_field m.base.trace_id))
