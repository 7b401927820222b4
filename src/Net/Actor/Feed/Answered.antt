-- ===== src/Net/Actor/Feed/Answered.antt =====
-- Every request is answered, if the callbacks behave.
use jsoff.Base.{
  String, Option, none, some, List, [], ◌≡◌, ap, ◌∙◌, lookup, Bool-cases, Option-cases, inl, inr,
}
use jsoff.Value.{Any, object, to_fields}
use jsoff.Result.{Result, ok, ◌>>=◌}
use jsoff.Message.{
  Message, RequestMessage, request, is_response, must_method, must_params, mk_request,
}
use jsoff.Message.Factory.Laws.{Answers}
use jsoff.Schema.{Schema}
use jsoff.Schema.Validator.{ErrorPos, new_schema_validator}
use jsoff.Schema.Check.{check}
use jsoff.Schema.Check.Refines.{validate-eq-check}
use jsoff.Net.Actor.{RpcRequest, MethodHandler, Node, Actor, actor, Children, no_children, add, has}
use jsoff.Net.Actor.Feed.{
  Feedback, feed, feed_children, feed_missing, feed_handler, method_not_found, or_missing, feed_own,
  recovered, refused, validate_message, after_validation, schema_in_use, message_map, verdict_of,
  with_id, recover_call_handler, recover_call_missing_handler, id_value,
}
use jsoff.Net.Actor.Feed.Answer.{
  IsAnswered, Behaves, Decodes, HandlerBehaves, MissingBehaves, TreeBehaves, ChildrenBehave,
  is_response-request, for_request, recovered-IsAnswered, refused-IsAnswered, not_found-IsAnswered,
}

-- A validation of a decoded template ends in a verdict.
validate_message_total :
    (decode_template : Message → Result (List (String × Any))) (s : Schema) (msg : Message)
    → Decodes decode_template
    → (verdict : Option ErrorPos) × (validate_message decode_template s msg ≡ ok verdict)
unfolding validate_message message_map
validate_message_total decode_template s msg decodes =
    let (m, decoded) = decodes msg in
    let m' = with_id (id_value (lookup "id" m)) m in
    (
      check s (object (to_fields m')) [],
      rw (decoded, ◌>>=◌)
          (ap verdict_of (validate-eq-check s (object (to_fields m')) new_schema_validator)),
    )

module _ {W : Type 0} (decode_template : Message → Result (List (String × Any)))
    (decodes : Decodes decode_template) (req : RpcRequest) (m : RequestMessage)
    (kind : m.base.kind ≡ mk_request) (same : req.msg ≡ request m) where
  call-IsAnswered :
      (n : Node W) (h : MethodHandler W) (params : List Any) (w : W)
      → Behaves n.recover_from_panic (h.callback req params w).0
      → IsAnswered m (recover_call_handler n h req params w).0
  unfolding recover_call_handler
  call-IsAnswered n h params w good =
      for_request m kind req (recovered n.recover_from_panic (h.callback req params w).0) same
        (recovered-IsAnswered m kind n.recover_from_panic (h.callback req params w).0 good)

  feed_missing-IsAnswered :
      (n : Node W) (w : W)
      → MissingBehaves n.recover_from_panic n.missing_handler
      → IsAnswered m (feed_missing n req w).0
  unfolding feed_missing recover_call_missing_handler
  feed_missing-IsAnswered n w good = elim (Option-cases n.missing_handler) [
    | inl e ↦
        rw (e, feed_missing)
          (for_request m kind req method_not_found same (not_found-IsAnswered m kind))
    | inr (h, e) ↦
        rw (e, feed_missing)
          (for_request m kind req (recovered n.recover_from_panic (h req w).0) same
            (recovered-IsAnswered m kind n.recover_from_panic (h req w).0 ((rw e at good) req w)))
  ]

  feed_handler-IsAnswered :
      (n : Node W) (h : MethodHandler W) (params : List Any) (w : W)
      → Behaves n.recover_from_panic (h.callback req params w).0
      → IsAnswered m (feed_handler decode_template n h req params w).0
  unfolding feed_handler
  feed_handler-IsAnswered n h params w good = elim (Option-cases (schema_in_use n h)) [
    | inl e ↦ rw (e, feed_handler) (call-IsAnswered n h params w good)
    | inr (s, e) ↦
        let (verdict, judged) = validate_message_total decode_template s req.msg decodes in
        rw (e, feed_handler) (rw (judged, after_validation) (judge verdict))
  ]
    where
      judge :
          (verdict : Option ErrorPos)
          → IsAnswered m (after_validation (ok verdict) n h req params w).0
      judge none = call-IsAnswered n h params w good
      judge (some pos) = for_request m kind req (refused pos) same (refused-IsAnswered m kind pos)

  abbrev ChildAnswers : Option (Feedback × W) → Type 0
  ChildAnswers none = Unit
  ChildAnswers (some (f, w)) = IsAnswered m f

  own-IsAnswered :
      (n : Node W) (h : Option (MethodHandler W)) (o : W → Option (Feedback × W))
      (params : List Any) (w : W)
      → HandlerBehaves n.recover_from_panic h
      → MissingBehaves n.recover_from_panic n.missing_handler
      → ChildAnswers (o w)
      → IsAnswered m
          (feed_own decode_template h (λ w'. or_missing (o w') n req w') n req params w).0
  own-IsAnswered n (some h) o params w good _ _ =
      feed_handler-IsAnswered n h params w (good req params w)
  own-IsAnswered n none o params w _ good later = elim (Option-cases (o w)) [
    | inl e ↦ rw (e, or_missing) (feed_missing-IsAnswered n w good)
    | inr ((f, w'), e) ↦ rw (e, or_missing) (rw e at later)
  ]

  mutual
    unfolding feed must_method must_params

    tree-IsAnswered :
        (a : Actor W) (w : W) → TreeBehaves a → IsAnswered m (feed decode_template a req w).0
    tree-IsAnswered (actor n cs) w (good, below) =
        rw
          (
            ap is_response same ∙ is_response-request m kind,
            ap must_method same,
            ap must_params same,
          )
          (own-IsAnswered n (lookup m.method n.method_handlers)
            (feed_children decode_template cs m.method req) m.params w (good.0 m.method) good.1
            (children-IsAnswered cs m.method w below))

    children-IsAnswered :
        (cs : Children W) (method : String) (w : W)
        → ChildrenBehave cs
        → ChildAnswers (feed_children decode_template cs method req w)
    children-IsAnswered no_children method w good = tt
    children-IsAnswered (add c cs) method w (good, goods) = elim (Bool-cases (has c method)) [
      | inl e ↦ rw (e, feed_children, ChildAnswers) (tree-IsAnswered c w good)
      | inr e ↦ rw (e, feed_children, ChildAnswers) (children-IsAnswered cs method w goods)
    ]

-- Feeding a request to any tree of actors returns a message with the id and the trace id of the
-- request, if the template of every message decodes and every callback of the tree behaves: it
-- returns a plain value or an error that is no HTTP response to pass on, or it panics with such an
-- error and its actor recovers from panics.
pub feed-request :
    {W : Type 0} (decode_template : Message → Result (List (String × Any))) (a : Actor W)
    (req : RpcRequest) (m : RequestMessage) (w : W)
    → Decodes decode_template
    → req.msg ≡ request m
    → m.base.kind ≡ mk_request
    → TreeBehaves a
    → (r : Message) × ((feed decode_template a req w).0 ≡ ok (some r)) × Answers r (request m)
feed-request decode_template a req m w decodes same kind good =
    tree-IsAnswered decode_template decodes req m kind same a w good
