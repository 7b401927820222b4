-- ===== src/Net/Tests.antt =====
-- Runs of the actors, and the theorems about them at concrete inputs. The world is the list of the
-- methods whose callbacks have run.
use jsoff.Base.{
  String, ◌≢◌, pos, true, false, none, some, List, [], ◌∷◌, ◌≡◌, refl, lookup, is_some, ◌==◌,
  Bool-cases, inl, inr,
}
use jsoff.Value.{Any, nil, int, str, list, object, to_items, fields}
use jsoff.Result.{
  Result, ok, err, foreign, err_method_not_found, err_internal_error, as_rpc, as_wrapped,
}
use jsoff.Message.{
  Message, RequestMessage, NotifyMessage, request, notify, mk_request, mk_notify,
  new_error_message_from_id, is_request, is_notify, is_response, must_method, must_params,
  raw_error_message, set_trace_id, to_message,
}
use jsoff.Message.Document.{document}
use jsoff.Message.Factory.Laws.{Answers}
use jsoff.Schema.{Schema, no_mixin, string_schema, method_schema, to_schemas, absent}
use jsoff.Schema.Validator.{ErrorPos}
use jsoff.Schema.Conforms.{Conforms}
use jsoff.Net.Actor.{
  get_schema, RpcRequest, plain, MethodHandler, Node, Actor, actor, Children, no_children, add, has,
  any_has, RequestCallback, CloseCallback, handle_close,
}
use jsoff.Net.Actor.Feed.{
  feed, feed_children, feed_handler, error_pos_message, recover_call_handler, wrap_result,
}
use jsoff.Net.Actor.Tree.{handle_close-eq-call_each}
use jsoff.Net.Actor.Feed.Routing.{feed-method_not_found}
use jsoff.Net.Actor.Feed.Replies.{feed-notify}
use jsoff.Net.Actor.Feed.Answer.{TreeBehaves}
use jsoff.Net.Actor.Feed.Answered.{feed-request}
use jsoff.Net.Actor.Feed.Guard.{checked_data, feed-Conforms}

abbrev World : Type 0
World = List String

abbrev map_of : Any → List (String × Any)
map_of (object m) = fields m
map_of _ = []

-- The template of a message as a map.
abbrev template : Message → Result (List (String × Any))
template msg = ok (map_of (document msg))

abbrev echo : RequestCallback World
echo req params w = (ok (plain (list (to_items params))), "echo" ∷ w)

abbrev fails : RequestCallback World
fails req params w = (err (foreign "disk full"), "fails" ∷ w)

-- One string of at most 3 bytes.
abbrev echo_schema : Schema
echo_schema =
    method_schema no_mixin (to_schemas (string_schema no_mixin (some (pos 3)) none ∷ [])) absent
      absent

abbrev echo_handler : MethodHandler World
echo_handler = record { callback = echo; schema = some echo_schema }

abbrev fails_handler : MethodHandler World
fails_handler = record { callback = fails; schema = none }

abbrev child_node : Node World
child_node = record {
  validate_schema = true;
  recover_from_panic = true;
  method_handlers = ("fails", fails_handler) ∷ [];
  missing_handler = none;
  close_handler = none;
}

abbrev root_node : Node World
root_node = record child_node { method_handlers = ("echo", echo_handler) ∷ [] }

abbrev below : Children World
below = add (actor child_node no_children) no_children

abbrev root : Actor World
root = actor root_node below

abbrev call : String → Any → RequestMessage
call method p = record {
  base = record { kind = mk_request; trace_id = "t1" };
  id = int (pos 1);
  method = method;
  params = p ∷ [];
  params_are_list = true;
}

abbrev note : NotifyMessage
note = record {
  base = record { kind = mk_notify; trace_id = "" };
  method = "echo";
  params = str "hi" ∷ [];
  params_are_list = true;
}

abbrev carry : Message → RpcRequest
carry msg = record { msg = msg; transport_type = "http"; session = none }

-- The error of a handler in a child is reported under the id of the request.
child_fails :
    feed template root (carry (request (call "fails" nil))) []
    ≡ (ok (some (new_error_message_from_id (int (pos 1)) "t1" err_internal_error)), "fails" ∷ [])
unfolding feed feed_children feed_handler recover_call_handler has is_response is_request is_notify
    must_method must_params wrap_result to_message new_error_message_from_id raw_error_message
    set_trace_id lookup as_rpc as_wrapped
child_fails = refl

root-TreeBehaves : TreeBehaves root
unfolding lookup as_rpc as_wrapped
root-TreeBehaves = (
  (
    λ method. elim (Bool-cases ("echo" == method)) [
      | inl e ↦ rw e (λ req params w. tt)
      | inr e ↦ rw e tt
    ],
    tt,
  ),
  (
    (
      (
        λ method. elim (Bool-cases ("fails" == method)) [
          | inl e ↦ rw e (λ req params w. λ _. refl)
          | inr e ↦ rw e tt
        ],
        tt,
      ),
      tt,
    ),
    tt,
  ),
)

feed-request_example :
    (r : Message) × ((feed template root (carry (request (call "fails" nil))) []).0 ≡ ok (some r))
    × Answers r (request (call "fails" nil))
feed-request_example =
    feed-request template root (carry (request (call "fails" nil))) (call "fails" nil) []
      (λ msg. (map_of (document msg), refl)) refl refl root-TreeBehaves

abbrev long : RequestMessage
long = call "echo" (str "hello")

finds_echo : lookup "echo" root_node.method_handlers ≡ some echo_handler
unfolding lookup
finds_echo = refl

feed-Conforms_example :
    (Conforms echo_schema (checked_data (map_of (document (request long))))
      → feed template root (carry (request long)) []
        ≡ recover_call_handler root_node echo_handler (carry (request long)) long.params [])
    × (¬ Conforms echo_schema (checked_data (map_of (document (request long))))
        → (pos : ErrorPos) × (feed template root (carry (request long)) []
            ≡ (ok (some (error_pos_message pos long)), [])))
feed-Conforms_example =
    feed-Conforms template root_node below echo_handler echo_schema (carry (request long)) long
      (map_of (document (request long))) [] refl refl refl finds_echo refl refl

feed-notify_example : (feed template root (carry (notify note)) []).0 ≢ ok (some (request long))
feed-notify_example =
    feed-notify template root (carry (notify note)) note [] (request long) refl refl

abbrev unknown : RequestMessage
unknown = call "nothing" nil

unknown_to_root : has root "nothing" ≡ false
unfolding has any_has lookup
unknown_to_root = refl

feed-method_not_found_example :
    feed template root (carry (request unknown)) []
    ≡ (ok (some (new_error_message_from_id (int (pos 1)) "t1" err_method_not_found)), [])
feed-method_not_found_example =
    feed-method_not_found template root (carry (request unknown)) unknown [] refl refl refl
      unknown_to_root

-- A parent and a child that leave their marks on the world when a session closes.
abbrev marks : String → CloseCallback World
marks name session w = name ∷ w

abbrev watched : Actor World
watched =
    actor (record root_node { close_handler = some (marks "root") })
      (add (actor (record child_node { close_handler = some (marks "child") }) no_children)
        no_children)

handle_close-eq-call_each_example : handle_close watched "s1" [] ≡ "root" ∷ "child" ∷ []
handle_close-eq-call_each_example = handle_close-eq-call_each watched "s1" []

schema_of_echo : is_some (get_schema root "echo") ≡ true
unfolding get_schema lookup
schema_of_echo = refl
