-- ===== src/Net/Actor/Typed/Refused.antt =====
-- What an actor answers to a request for a method that a typed function was registered for.
use jsoff.Base.{
  ℕ, ◌+◌, String, Bool, true, false, length, drop, Option, none, some, List, [], ◌∷◌, ◌++◌, ◌⊎◌,
  inl, inr, ◌≡◌, ◌≤◌, ◌<◌, refl, ap, ◌∙◌, Bool-cases, lookup, eq_iff,
}
use jsoff.Value.{Any}
use jsoff.Result.{>>=-ok, RpcError, Result, ok, err, rpc, as_rpc, params_error}
use jsoff.Message.{Message, RequestMessage, request, mk_request, to_message}
use jsoff.Schema.{Schema}
use jsoff.Net.Actor.{
  RpcRequest, Reply, RequestCallback, MethodHandler, Node, Actor, actor, Children, on_request,
  get_handler, node,
}
use jsoff.Net.Actor.Feed.{
  feed, feed_handler, recover_call_handler, recovered, schema_in_use, wrap_result,
}
use jsoff.Net.Actor.Feed.Answer.{is_request-request}
use jsoff.Net.Actor.Feed.Guard.{feed_to_handler}
use jsoff.Net.Actor.Feed.Registry.{on_request-get_handler}
use jsoff.Net.Actor.Typed.{
  GoType, Reflection, func, FirstArgSpec, first_arg_num, first_args, position_text, typed_result,
  wrap_typed, on_typed_with,
}
use jsoff.Net.Actor.Typed.Laws.{Converts, Refuses, wrap_typed-lem}

module _ {W : Type 0} (n : Node W) (h : MethodHandler W) (req : RpcRequest) (m : RequestMessage)
    (same : req.msg ≡ request m) (kind : m.base.kind ≡ mk_request) where
  recovered-rpc :
      (recover : Bool) (e : RpcError)
      → recovered recover (err (rpc e)) req.msg ≡ ok (some (to_message e m))
  unfolding wrap_result as_rpc
  recovered-rpc true e = rw (same, is_request-request m kind) refl
  recovered-rpc false e = rw (same, is_request-request m kind) refl

  module _ (decode_template : Message → Result (List (String × Any))) (cs : Children W) (w : W)
      (found : lookup m.method n.method_handlers ≡ some h) (free : h.schema ≡ none) where
    without_schema : schema_in_use n h ≡ none
    without_schema = elim (Bool-cases n.validate_schema) [
      | inl e ↦ rw (e, free) refl
      | inr e ↦ rw e refl
    ]

    feed-callback :
        (res : Result Reply) (w' : W)
        → h.callback req m.params w ≡ (res, w')
        → feed decode_template (actor n cs) req w ≡ (recovered n.recover_from_panic res req.msg, w')
    unfolding feed_handler recover_call_handler
    feed-callback res w' called =
        feed_to_handler decode_template n cs h req m w same kind found
        ∙ rw (without_schema, feed_handler) (rw called refl)

    feed-rpc :
        (e : RpcError)
        → h.callback req m.params w ≡ (err (rpc e), w)
        → feed decode_template (actor n cs) req w ≡ (ok (some (to_message e m)), w)
    feed-rpc e called =
        feed-callback (err (rpc e)) w called
        ∙ ap (λ f. (f, w)) (recovered-rpc n.recover_from_panic e)

module _ {V W : Type 0} (lib : Reflection V)
    (decode_template : Message → Result (List (String × Any))) (call : List V → W → Result V × W)
    (ins : List GoType) (out e : GoType) (spec : Option FirstArgSpec) where
  -- The method's handler after the registration.
  registered :
      (a a' : Actor W) (method : String) (schema : Option Schema)
      → on_typed_with lib spec a method (func ins (out ∷ e ∷ []) call) schema ≡ ok a'
      → (h : RequestCallback W) × (wrap_typed lib (func ins (out ∷ e ∷ []) call) spec ≡ ok h)
        × (get_handler a' method ≡ some (record { callback = h; schema = schema }))
  unfolding on_typed_with
  registered (actor n cs) a' method schema done =
      let (h, wrapped, put) =
        >>=-ok (wrap_typed lib (func ins (out ∷ e ∷ []) call) spec)
          (λ h. on_request (actor n cs) method h schema) a' done in
      (
        h,
        wrapped,
        on_request-get_handler n cs method h schema a' method put
            ∙ rw ((eq_iff method method).1 refl) refl,
      )

  -- A request for a method that a typed function was registered for, without a schema: with too few params, and
  -- with a param that cannot be converted, it is answered by the error for bad params, with its id, and the
  -- function does not run; otherwise the function is called once, with the converted params, and its result
  -- is answered as that of any callback.
  pub feed-typed :
      (a a' : Actor W) (req : RpcRequest) (m : RequestMessage) (w : W)
      → req.msg ≡ request m
      → m.base.kind ≡ mk_request
      → on_typed_with lib spec a m.method (func ins (out ∷ e ∷ []) call) none ≡ ok a'
      → (length m.params + first_arg_num spec < length ins
          → feed decode_template a' req w
            ≡ (ok (some (to_message (params_error "no enough params size") m)), w))
        × (length ins ≤ length m.params + first_arg_num spec
            → ((vs : List V) × Converts lib (drop (first_arg_num spec) ins) m.params vs
                × (feed decode_template a' req w ≡ (
                  recovered
                      (node a').recover_from_panic
                      (typed_result lib out (call (first_args lib spec req ++ vs) w).0)
                      req.msg,
                  (call (first_args lib spec req ++ vs) w).1,
                )))
              ⊎ ((j : ℕ) × (text : String) × Refuses lib
                    (first_arg_num spec)
                    (drop (first_arg_num spec) ins)
                    m.params
                    j
                    text
                  × (feed decode_template a' req w
                      ≡ (ok (some (to_message (params_error (position_text j text)) m)), w))))
  unfolding get_handler
  feed-typed a (actor n cs) req m w same kind done =
      let (h, wrapped, found) = registered a (actor n cs) m.method none done in
      let (few, enough) = wrap_typed-lem lib call ins out e spec h wrapped req m.params w in
      let given : MethodHandler W = record { callback = h; schema = none } in
      (
        λ lacks. feed-rpc n given req m same kind decode_template cs w found refl _ (few lacks),
        λ has. elim (enough has) [
          | inl (vs, all, called) ↦ inl (
            vs,
            all,
            feed-callback n given req m same kind decode_template cs w found refl _ _ called,
          )
          | inr (j, text, one, refused) ↦ inr (
            j,
            text,
            one,
            feed-rpc n given req m same kind decode_template cs w found refl _ refused,
          )
        ],
      )
