-- ===== src/Net/Actor/Feed/Guard.antt =====
-- The schema of a method guards its callback.
use jsoff.Base.{String, true, Option, none, some, List, [], ◌≡◌, refl, ap, ◌∙◌, lookup}
use jsoff.Value.{Any, object, to_fields}
use jsoff.Result.{Result, ok, ◌>>=◌}
use jsoff.Message.{
  Message, RequestMessage, request, mk_request, must_method, must_params, is_response,
}
use jsoff.Schema.{Schema}
use jsoff.Schema.Validator.{ErrorPos, new_schema_validator}
use jsoff.Schema.Check.{check}
use jsoff.Schema.Check.Refines.{validate-eq-check}
use jsoff.Schema.Conforms.{Conforms}
use jsoff.Schema.Conforms.Laws.{validate-Conforms}
use jsoff.Net.Actor.{RpcRequest, MethodHandler, Node, actor, Children}
use jsoff.Net.Actor.Feed.{
  feed, feed_handler, refused, error_pos_message, validate_message, after_validation, schema_in_use,
  message_map, verdict_of, with_id, recover_call_handler, id_value,
}
use jsoff.Net.Actor.Feed.Answer.{is_response-request}

-- What the validator is given for a message whose template decodes to these entries.
abbrev pub checked_data : List (String × Any) → Any
checked_data m = object (to_fields (with_id (id_value (lookup "id" m)) m))

module _ (decode_template : Message → Result (List (String × Any))) (s : Schema) (msg : Message)
    (m : List (String × Any)) (decoded : decode_template msg ≡ ok m) where
  validate_message-eq-check :
      validate_message decode_template s msg ≡ ok (check s (checked_data m) [])
  unfolding validate_message message_map
  validate_message-eq-check =
      rw (decoded, ◌>>=◌)
        (ap verdict_of (validate-eq-check s (checked_data m) new_schema_validator))

check-Conforms :
    (s : Schema) (d : Any) (verdict : Option ErrorPos)
    → check s d [] ≡ verdict
    → (Conforms s d → verdict ≡ none) × (verdict ≡ none → Conforms s d)
check-Conforms s d verdict e =
    let judged = validate-eq-check s d new_schema_validator in
    let (sound, complete) = validate-Conforms s d new_schema_validator in
    (λ c. cc (complete c), λ n. sound (cc judged))

module _ {W : Type 0} (decode_template : Message → Result (List (String × Any))) (n : Node W)
    (cs : Children W) (h : MethodHandler W) (req : RpcRequest) (m : RequestMessage) (w : W) where
  pub feed_to_handler :
      req.msg ≡ request m
      → m.base.kind ≡ mk_request
      → lookup m.method n.method_handlers ≡ some h
      → feed decode_template (actor n cs) req w ≡ feed_handler decode_template n h req m.params w
  unfolding feed must_method must_params
  feed_to_handler same kind found =
      rw
        (ap is_response same ∙ is_response-request m kind, ap must_method same, ap must_params same)
        (rw found)

module _ {W : Type 0} (decode_template : Message → Result (List (String × Any))) (n : Node W)
    (cs : Children W) (h : MethodHandler W) (s : Schema) (req : RpcRequest) (m : RequestMessage)
    (entries : List (String × Any)) (w : W) where
  -- The verdict on the message decides between the callback and a refusal.
  by_verdict :
      (verdict : Option ErrorPos)
      → decode_template req.msg ≡ ok entries
      → schema_in_use n h ≡ some s
      → check s (checked_data entries) [] ≡ verdict
      → feed_handler decode_template n h req m.params w
        ≡ after_validation (ok verdict) n h req m.params w
  unfolding feed_handler
  by_verdict verdict decoded used e =
      rw (used, feed_handler)
        (rw (validate_message-eq-check decode_template s req.msg entries decoded, after_validation)
          (rw (e, after_validation)))

  refused_request :
      (pos : ErrorPos)
      → req.msg ≡ request m
      → after_validation (ok (some pos)) n h req m.params w
        ≡ (ok (some (error_pos_message pos m)), w)
  unfolding refused
  refused_request pos same = ap (λ msg. (refused pos msg, w)) same

  -- For a request to a method with a schema that is in use: if the decoded message conforms to the
  -- schema, feeding it is calling the callback (with its panics recovered from); if not, the
  -- answer is the error message for an invalid schema, and the callback does not run.
  pub feed-Conforms :
      req.msg ≡ request m
      → m.base.kind ≡ mk_request
      → decode_template req.msg ≡ ok entries
      → lookup m.method n.method_handlers ≡ some h
      → n.validate_schema ≡ true
      → h.schema ≡ some s
      → (Conforms s (checked_data entries)
          → feed decode_template (actor n cs) req w ≡ recover_call_handler n h req m.params w)
        × (¬ Conforms s (checked_data entries)
            → (pos : ErrorPos) × (feed decode_template (actor n cs) req w
                ≡ (ok (some (error_pos_message pos m)), w)))
  feed-Conforms same kind decoded found validating given =
      cases (check s (checked_data entries) []) refl
    where
      used : schema_in_use n h ≡ some s
      used = rw validating given

      cases :
          (verdict : Option ErrorPos)
          → check s (checked_data entries) [] ≡ verdict
          → (Conforms s (checked_data entries)
              → feed decode_template (actor n cs) req w ≡ recover_call_handler n h req m.params w)
            × (¬ Conforms s (checked_data entries)
                → (pos : ErrorPos) × (feed decode_template (actor n cs) req w
                    ≡ (ok (some (error_pos_message pos m)), w)))
      cases none e = (
        λ _.
            feed_to_handler decode_template n cs h req m w same kind found
            ∙ by_verdict none decoded used e,
        λ f. absurd (f ((check-Conforms s (checked_data entries) none e).1 refl)),
      )
      cases (some pos) e = (
        λ c. cc ((check-Conforms s (checked_data entries) (some pos) e).0 c),
        λ _. (
          pos,
          feed_to_handler decode_template n cs h req m w same kind found
              ∙ by_verdict (some pos) decoded used e
              ∙ refused_request pos same,
        ),
      )
