-- ===== src/Net/Http1/Laws.antt =====
-- What the HTTP/1 handler answers, and when callbacks run.
use jsoff.Base.{
  String, false, ◌==◌, eq_iff, none, List, ◌∷◌, ◌≡◌, ◌⊎◌, inl, inr, refl, ap, ◌∙◌, Bool-cases,
}
use jsoff.Value.{Any}
use jsoff.Result.{GoError, Result, ok, err, panic, ◌>>=◌, err_internal_error}
use jsoff.Message.{
  Message, RequestMessage, request, set_trace_id, must_id, new_error_message_from_id,
}
use jsoff.Message.Document.{decode_message, document}
use jsoff.Message.Document.Laws.{decode_message-IsDecoded}
use jsoff.Message.Factory.Laws.{Answers}
use jsoff.Net.Actor.{RpcRequest, Actor}
use jsoff.Net.Actor.Feed.{feed}
use jsoff.Net.Actor.Feed.Answer.{Decodes, TreeBehaves}
use jsoff.Net.Actor.Feed.Answered.{feed-request}
use jsoff.Net.Http1.{
  Json, Response, content_type, passed_headers, decode_options, is_discover, write_answer,
  write_feedback, serve_message, serve_parsed, serve_body, serve_http1,
}

-- The request as the handler hands it on.
abbrev pub over_http : Message → RpcRequest
over_http msg = record { msg = msg; transport_type = "http"; session = none }

-- The response of status 200 with the text.
abbrev pub IsOk : Result Response → Message → String → Type 0
IsOk r msg text =
    r ≡ ok (record { status = 200; header = content_type ∷ passed_headers msg; body = text })

module _ {W : Type 0} (json : Json) (decode_template : Message → Result (List (String × Any))) where
  pub serve_message-feed :
      (a : Actor W) (msg : Message) (w : W)
      → is_discover msg ≡ false
      → serve_message json decode_template a msg w ≡ (
        write_feedback json msg (feed decode_template a (over_http msg) w).0,
        (feed decode_template a (over_http msg) w).1,
      )
  unfolding serve_message
  serve_message-feed a msg w e = rw e refl

  -- A POST whose body is a request other than "rpc.discover", to a tree of actors whose callbacks behave,
  -- is answered by the status 200 with the text of a message that carries the id and the trace id of the
  -- request, printed without the trace id; or, if that cannot be printed, with the text of an internal
  -- error with this id and trace id.
  pub serve_http1-Answers :
      (a : Actor W) (text : String) (doc : Any) (m : RequestMessage) (w : W)
      → Decodes decode_template
      → TreeBehaves a
      → json.read text ≡ ok doc
      → decode_message decode_options doc ≡ ok (request m)
      → (m.method == "rpc.discover") ≡ false
      → (r : Message) × Answers r (request m)
        × ((s : String)
            → json.print (document (set_trace_id r "")) ≡ ok s
            → IsOk (serve_http1 json decode_template a "POST" (ok text) w).0 r s)
        × ((e : GoError) (s : String)
            → json.print (document (set_trace_id r "")) ≡ err e
            → json.print
                (document (new_error_message_from_id m.id m.base.trace_id err_internal_error))
              ≡ ok s
            → IsOk (serve_http1 json decode_template a "POST" (ok text) w).0 r s)
  unfolding serve_http1 write_feedback write_answer must_id
  serve_http1-Answers a text doc m w decodes good reads decoded other =
      let (wf, _) = decode_message-IsDecoded decode_options doc (request m) decoded in
      let (r, fed, own) =
        feed-request decode_template a (over_http (request m)) m w decodes refl wf.0 good in
      let served = serve_message-feed a (request m) w other in
      (
        r,
        own,
        λ s printed. rw (reads, ◌>>=◌, decoded) (ap (λ o. o.0) served ∙ rw (fed, printed) refl),
        λ e s fails printed.
            rw (reads, ◌>>=◌, decoded) (ap (λ o. o.0) served ∙ rw (fed, fails, printed) refl),
      )

  abbrev FedWith : Actor W → W → Message → Result Response × W → Type 0
  FedWith a w msg o =
      (is_discover msg ≡ false) × (o.1 ≡ (feed decode_template a (over_http msg) w).1)

  serve_message-world :
      (a : Actor W) (msg : Message) (w : W)
      → ((serve_message json decode_template a msg w).1 ≡ w)
        ⊎ FedWith a w msg (serve_message json decode_template a msg w)
  unfolding serve_message
  serve_message-world a msg w = elim (Bool-cases (is_discover msg)) [
    | inl e ↦ rw e (inl refl)
    | inr e ↦ inr (e, rw e refl)
  ]

  serve_parsed-world :
      (a : Actor W) (r : Result Message) (w : W)
      → ((serve_parsed json decode_template a r w).1 ≡ w)
        ⊎ ((msg : Message) × (r ≡ ok msg)
            × FedWith a w msg (serve_parsed json decode_template a r w))
  serve_parsed-world a (err e) w = inl refl
  serve_parsed-world a (panic r) w = inl refl
  serve_parsed-world a (ok msg) w = elim (serve_message-world a msg w) [
    | inl same ↦ inl same
    | inr fed ↦ inr (msg, refl, fed)
  ]

  serve_body-world :
      (a : Actor W) (body : Result String) (w : W)
      → ((serve_body json decode_template a body w).1 ≡ w)
        ⊎ ((text : String) × (msg : Message) × (body ≡ ok text)
            × ((json.read text >>= decode_message decode_options) ≡ ok msg)
            × FedWith a w msg (serve_body json decode_template a body w))
  serve_body-world a (err e) w = inl refl
  serve_body-world a (panic r) w = inl refl
  serve_body-world a (ok text) w =
      elim (serve_parsed-world a (json.read text >>= decode_message decode_options) w) [
        | inl same ↦ inl same
        | inr (msg, e, fed) ↦ inr (text, msg, refl, e, fed)
      ]

  -- Callbacks run only where Feed runs them on the message that was decoded from the body of a POST: after
  -- any other request, one that cannot be read or decoded, and "rpc.discover", the world is as before.
  pub serve_http1-world :
      (a : Actor W) (method : String) (body : Result String) (w : W)
      → ((serve_http1 json decode_template a method body w).1 ≡ w)
        ⊎ ((text : String) × (msg : Message) × (method ≡ "POST")
            × (body ≡ ok text)
            × ((json.read text >>= decode_message decode_options) ≡ ok msg)
            × (is_discover msg ≡ false)
            × ((serve_http1 json decode_template a method body w).1
                ≡ (feed decode_template a (over_http msg) w).1))
  unfolding serve_http1
  serve_http1-world a method body w = elim (Bool-cases (method == "POST")) [
    | inl e ↦ elim (serve_body-world a body w) [
      | inl same ↦ inl (rw e same)
      | inr (text, msg, read, decoded, (plain, fed)) ↦
          inr (text, msg, (eq_iff method "POST").0 e, read, decoded, plain, rw e fed)
    ]
    | inr e ↦ inl (rw e refl)
  ]
