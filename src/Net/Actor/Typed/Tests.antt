-- ===== src/Net/Actor/Typed/Tests.antt =====
-- A typed function of one int64 that counts its calls, and the theorems about it.
use jsoff.Base.{
  ℕ, suc, ◌+◌, String, true, false, length, itoa, none, some, List, [], ◌∷◌, ◌⊎◌, inl, inr, ◌≡◌,
  ◌≤◌, ◌<◌, refl, pos, lookup, store, ◌==◌,
}
use jsoff.Value.{Any, int, nil, str}
use jsoff.Result.{Result, ok, err, rpc, params_error, foreign}
use jsoff.Message.{RequestMessage, request, mk_request, to_message}
use jsoff.Net.Actor.{RpcRequest, plain, RequestCallback, Actor, actor, no_children, on_request}
use jsoff.Net.Actor.Feed.{feed, recovered}
use jsoff.Net.Actor.Typed.{
  GoType, struct, ptr, other_type, Reflection, TypedFunc, func, req_spec, position_text,
  typed_result, typed_handler, wrap_typed, on_typed_with, convert_params, type_string,
  type_is_struct, check_spec,
}
use jsoff.Net.Actor.Typed.Laws.{Converts, Refuses, CallsOnce, RefusesOne, wrap_typed-lem}
use jsoff.Net.Actor.Typed.Refused.{feed-typed}
use jsoff.Net.Samples.{template}

abbrev int64 : GoType
int64 = other_type "int64"

abbrev error_type : GoType
error_type = other_type "error"

abbrev to_int : Any → String ⊎ Any
to_int (int n) = inr (int n)
to_int _ = inl "expected type 'int64'"

-- Values of Go are those of an `any`.
abbrev lib : Reflection Any
lib = record {
  implements_context = λ t. false;
  implements_error = λ t. type_string t == "error";
  request_value = λ req. str "request";
  context_value = λ req. str "context";
  decode = λ target a. to_int a;
  encode = λ target v. ok (plain v);
}

abbrev echo : List Any → ℕ → Result Any × ℕ
echo [] calls = (ok nil, suc calls)
echo (v ∷ vs) calls = (ok v, suc calls)

abbrev echo_func : TypedFunc ℕ Any
echo_func = func (int64 ∷ []) (int64 ∷ error_type ∷ []) echo

abbrev callback : RequestCallback ℕ
callback = typed_handler lib (int64 ∷ []) int64 echo none

echo_wrapped : wrap_typed lib echo_func none ≡ ok callback
unfolding wrap_typed type_string
echo_wrapped = refl

-- A function with a first argument of another type is not registered as one that takes the request.
wants_request :
    wrap_typed lib echo_func (some req_spec)
    ≡ err (foreign "the first arg must be *jsoffnet.RPCRequest")
unfolding wrap_typed check_spec type_string
wants_request = refl

takes_request : check_spec lib req_spec (ptr (struct "jsoffnet.RPCRequest")) ≡ true
unfolding check_spec type_string
takes_request = refl

abbrev ask : List Any → RequestMessage
ask params = record {
  base = record { kind = mk_request; trace_id = "t" };
  id = int (pos 7);
  method = "echo";
  params = params;
  params_are_list = true;
}

abbrev over_tcp : RequestMessage → RpcRequest
over_tcp m = record { msg = request m; transport_type = "tcp"; session = none }

wrap_typed-lem_example :
    (length {A = Any} (str "x" ∷ []) + 0 < 1
      → callback (over_tcp (ask (str "x" ∷ []))) (str "x" ∷ []) 0
        ≡ (err (rpc (params_error "no enough params size")), 0))
    × (1 ≤ length {A = Any} (str "x" ∷ []) + 0
        → CallsOnce lib echo
            (int64 ∷ [])
            int64
            none
            (over_tcp (ask (str "x" ∷ [])))
            (str "x" ∷ [])
            0
            (callback (over_tcp (ask (str "x" ∷ []))) (str "x" ∷ []) 0)
          ⊎ RefusesOne lib echo
              (int64 ∷ [])
              none
              (str "x" ∷ [])
              0
              (callback (over_tcp (ask (str "x" ∷ []))) (str "x" ∷ []) 0))
wrap_typed-lem_example =
    wrap_typed-lem lib echo (int64 ∷ []) int64 error_type none callback echo_wrapped
      (over_tcp (ask (str "x" ∷ []))) (str "x" ∷ []) 0

abbrev empty : Actor ℕ
empty =
    actor
      (record {
        validate_schema = true;
        recover_from_panic = true;
        method_handlers = [];
        missing_handler = none;
        close_handler = none;
      })
      no_children

abbrev echoer : Actor ℕ
echoer =
    actor
      (record {
        validate_schema = true;
        recover_from_panic = true;
        method_handlers = ("echo", record { callback = callback; schema = none }) ∷ [];
        missing_handler = none;
        close_handler = none;
      })
      no_children

put_echo : on_typed_with lib none empty "echo" echo_func none ≡ ok echoer
unfolding on_typed_with wrap_typed type_string on_request lookup store
put_echo = refl

names_position :
    callback (over_tcp (ask [])) (str "x" ∷ []) 0
    ≡ (err (rpc (params_error "params 1 expected type 'int64'")), 0)
unfolding typed_handler convert_params itoa
names_position = refl

calls_once : callback (over_tcp (ask [])) (int (pos 5) ∷ nil ∷ []) 0 ≡ (ok (plain (int (pos 5))), 1)
unfolding typed_handler convert_params type_is_struct
calls_once = refl

feed-typed_example :
    (1 + 0 < 1
      → feed template echoer (over_tcp (ask (str "x" ∷ []))) 0
        ≡ (ok (some (to_message (params_error "no enough params size") (ask (str "x" ∷ [])))), 0))
    × (1 ≤ 1 + 0
        → ((vs : List Any) × Converts lib (int64 ∷ []) (str "x" ∷ []) vs
            × (feed template echoer (over_tcp (ask (str "x" ∷ []))) 0 ≡ (
              recovered true (typed_result lib int64 (echo vs 0).0) (request (ask (str "x" ∷ []))),
              (echo vs 0).1,
            )))
          ⊎ ((j : ℕ) × (text : String) × Refuses lib 0 (int64 ∷ []) (str "x" ∷ []) j text
              × (feed template echoer (over_tcp (ask (str "x" ∷ []))) 0 ≡ (
                ok (some (to_message (params_error (position_text j text)) (ask (str "x" ∷ [])))),
                0,
              ))))
feed-typed_example =
    feed-typed lib template echo (int64 ∷ []) int64 error_type none empty echoer
      (over_tcp (ask (str "x" ∷ []))) (ask (str "x" ∷ [])) 0 refl refl put_echo
