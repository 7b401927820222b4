-- ===== src/Net/Http1/Client/Relay.antt =====
-- The client against the handler of net/http1_server.go: what a call through both gives.
use jsoff.Base.{
  String, false, none, some, List, ◌∷◌, ◌≡◌, ◌≢◌, refl, ap, ◌∙◌, sym, arith, Bool-cases, inl, inr,
}
use jsoff.Value.{Any}
use jsoff.Result.{GoError, Result, ok, err, panic, ◌>>=◌, context, wrapped, as_wrapped, as_simple}
use jsoff.Message.{Message, RequestMessage, request, notify, result, error, Header, set_trace_id}
use jsoff.Message.Document.{document, null_id, is_nil}
use jsoff.Message.Document.RoundTrip.{
  Fits, IdAllowed, IsWellFormed, read_message, decode_message-document,
}
use jsoff.Value.Read.{Literals, as_read}
use jsoff.Net.Actor.{Actor}
use jsoff.Net.Actor.Feed.{feed}
use jsoff.Net.Http1.{
  Json, Response, content_type, passed_headers, all_headers, x_headers, decode_options, is_discover,
  serve_http1, write_failure, write_answer, write_feedback,
}
use jsoff.Net.Http1.Laws.{over_http, serve_message-feed}
use jsoff.Net.Http1.Client.{
  Exchange, replied, do_failed, Http, post, http_call, http_request, rpc_context, read_exchange,
  read_reply, with_headers, abnormal,
}

-- A message as its document shows it.
abbrev pub bare : Message → Message
bare (result m) =
    result (record m { response_header = none; base = record m.base { trace_id = "" } })
bare (error m) = error (record m { response_header = none; base = record m.base { trace_id = "" } })
bare m = set_trace_id m ""

document-bare : (r : Message) → document (bare r) ≡ document (set_trace_id r "")
unfolding document set_trace_id
document-bare (request m) = refl
document-bare (notify m) = refl
document-bare (result m) = refl
document-bare (error m) = refl

no_null : (id : Any) → null_id decode_options id ≡ false
no_null id = elim (Bool-cases (is_nil id)) [ inl e ↦ rw e refl | inr e ↦ rw e refl ]

any_id : (m : Message) → IdAllowed decode_options m
any_id (request m) = no_null m.id
any_id (result m) = no_null m.id
any_id (notify m) = tt
any_id (error m) = tt

read-discover :
    (literals : Literals) (m : Message) → is_discover (read_message literals m) ≡ is_discover m
read-discover literals (request m) = refl
read-discover literals (notify m) = refl
read-discover literals (result m) = refl
read-discover literals (error m) = refl

-- The library prints the document of the message, and reads of the text what such documents are read as.
abbrev pub Travels : Literals → Json → Message → Type 0
Travels literals json m =
    (IsWellFormed m × Fits literals m)
    × ((text : String) × (json.print (document m) ≡ ok text)
        × (json.read text ≡ ok (as_read literals (document m))))

module _ (literals : Literals) (carry : List (String × String) → Header) (broken : GoError) where
  -- The response as the client's library reads it; the connection breaks where the handler panics.
  abbrev pub exchange_of : Result Response → Exchange
  exchange_of (ok r) =
      replied (record { status = r.status; header = carry r.header; body = ok r.body })
  exchange_of (err e) = do_failed broken
  exchange_of (panic p) = do_failed broken

  module _ {W : Type 0} (json : Json) (decode_template : Message → Result (List (String × Any)))
      (a : Actor W) where
    -- A client of the handler.
    abbrev pub over : Http W
    over = record {
      refusal = none;
      run = λ req w.
          let (r, w') = serve_http1 json decode_template a "POST" (ok req.body) w in
          (exchange_of r, w');
    }

    served :
        (m : Message) (w : W)
        → is_discover m ≡ false
        → Travels literals json m
        → (text : String) × (json.print (document m) ≡ ok text)
          × (serve_http1 json decode_template a "POST" (ok text) w ≡ (
            write_feedback json
                (read_message literals m)
                (feed decode_template a (over_http (read_message literals m)) w).0,
            (feed decode_template a (over_http (read_message literals m)) w).1,
          ))
    unfolding serve_http1
    served m w plain ((wf, fits), (text, prints, reads)) = (
      text,
      prints,
      rw (reads, ◌>>=◌, decode_message-document literals decode_options m wf fits (any_id m))
          (serve_message-feed json decode_template a (read_message literals m) w
            (read-discover literals m ∙ plain)),
    )

    -- What the client makes of the handler's answer to a message.
    post-over :
        {A : Type 0} (read : Exchange → Result A) (extra_header : Header) (m : Message) (w : W)
        → is_discover (set_trace_id m "") ≡ false
        → Travels literals json (set_trace_id m "")
        → post json over extra_header read m w ≡ (
            let there = read_message literals (set_trace_id m "") in
            let fed = feed decode_template a (over_http there) w in
            record {
              answer = read (exchange_of (write_feedback json there fed.0));
              message = set_trace_id m "";
              world = fed.1;
            })
    unfolding post
    post-over read extra_header m w plain there =
        let (text, prints, answered) = served (set_trace_id m "") w plain there in
        rw (prints, answered) refl

    answered-ok :
        (msg r : Message) (text : String)
        → json.print (document (bare r)) ≡ ok text
        → write_feedback json msg (ok (some r))
          ≡ ok (record { status = 200; header = content_type ∷ passed_headers r; body = text })
    unfolding write_feedback write_answer
    answered-ok msg r text prints = rw (ap json.print (sym (document-bare r)) ∙ prints) refl

    read-ok :
        (trace : String) (header : Header) (r : Message)
        → IsWellFormed r
        → Fits literals r
        → (text : String) → json.read text ≡ ok (as_read literals (document r))
        → read_reply json trace (record { status = 200; header = header; body = ok text })
          ≡ ok (set_trace_id (with_headers (x_headers header) (read_message literals r)) trace)
    unfolding read_reply
    read-ok trace header r wf fits text reads =
        rw (reads, ◌>>=◌, decode_message-document literals decode_options r wf fits (any_id r)) refl

    -- A call through the client and the handler of a request whose text the library reads: the actor is fed
    -- the request without its trace id and with json.Number for the numbers in its params, and the call returns
    -- the message that it answers, with json.Number for the numbers in it, with the trace id of the request in
    -- place of its own and with those of its headers that pass both sides. The caller's request has lost its
    -- trace id.
    pub call-feeds :
        (extra_header : Header) (m : RequestMessage) (r : Message) (w w' : W)
        → is_discover (request m) ≡ false
        → Travels literals json (bare (request m))
        → feed decode_template a (over_http (read_message literals (bare (request m)))) w
          ≡ (ok (some r), w')
        → Travels literals json (bare r)
        → http_call json over extra_header m w ≡ record {
          answer = ok (
              set_trace_id
                (with_headers
                  (x_headers (carry (content_type ∷ passed_headers r)))
                  (read_message literals (bare r)))
                m.base.trace_id);
          message = bare (request m);
          world = w';
        }
    unfolding http_call http_request set_trace_id
    call-feeds extra_header m r w w' plain there fed ((wf, fits), (text, prints, reads)) =
        rw
          (
            post-over (read_exchange json m.base.trace_id) extra_header (request m) w plain there,
            fed,
            answered-ok (read_message literals (bare (request m))) r text prints,
            read-ok m.base.trace_id (carry (content_type ∷ passed_headers r)) (bare r) wf fits text
                reads,
          )
          refl

    read-failed :
        (trace : String) (r : Response)
        → r.status ≢ 200
        → read_exchange json trace (exchange_of (ok r))
          ≡ abnormal
              (record { status = r.status; header = carry r.header; body = ok r.body })
              r.body
    unfolding read_reply
    read-failed trace r bad = ground arith

    -- If feeding fails with an error that the handler does not answer by the status 200, the call returns an
    -- error for which a handler that it reaches answers by the same status and body, with the headers as they
    -- came over the network: a proxy passes a failure on, also through other proxies.
    pub call-relays :
        (extra_header : Header) (m : RequestMessage) (e : GoError) (w w' : W)
        → is_discover (request m) ≡ false
        → Travels literals json (bare (request m))
        → feed decode_template a (over_http (read_message literals (bare (request m)))) w
          ≡ (err e, w')
        → (write_failure e).status ≢ 200
        → (e' : GoError) × ((http_call json over extra_header m w).answer ≡ err e')
          × (write_failure e'
              ≡ record (write_failure e) { header = all_headers (carry (write_failure e).header) })
    unfolding http_call http_request set_trace_id write_feedback write_failure as_simple as_wrapped
    call-relays extra_header m e w w' plain there fed bad = (
      context (rpc_context m) (
          context "abnormal response" (
            wrapped (record {
              status_code = (write_failure e).status;
              header = carry (write_failure e).header;
              body = (write_failure e).body;
            }))),
      rw
          (
            post-over (read_exchange json m.base.trace_id) extra_header (request m) w plain there,
            fed,
            read-failed m.base.trace_id (write_failure e) bad,
          )
          refl,
      refl,
    )
