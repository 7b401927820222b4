-- ===== src/Net/Streaming/Reach/Dispatch.antt =====
-- What a pass of the receiving loop does with a message.
use jsoff.Base.{
  [], ◌∷◌, sym, ap, ◌∙◌, true, false, Option, none, some, ◌≡◌, refl, inl, inr, ◌⊎◌, Bool-cases,
  arith,
}
use jsoff.Value.{Any}
use jsoff.Result.{ok, ◌>>=◌}
use jsoff.Message.{
  Message, request, notify, result, error, is_result_or_error, must_id, replace_id,
  raw_result_message, raw_error_message, set_trace_id,
}
use jsoff.Message.Document.RoundTrip.{IsWellFormed}
use jsoff.Net.Streaming.Table.{same_id_sound}
use jsoff.Net.Streaming.{
  Transport, Client, goes_on, readed, PendingRequest, load_and_delete, same_id, PendingRequests,
  deliver, handle_loaded, handle_result, call_message_handler, connected, recv_round,
}

-- The message is a result or an error, with its id.
abbrev pub AnswersTo : Any → Message → Type 0
AnswersTo id msg = (must_id msg ≡ ok id) × (is_result_or_error msg ≡ true)

injected : (a b : Any) → ok a ≡ ok b → a ≡ b
injected a b e = ground arith

answers_to :
    (msg : Message)
    → IsWellFormed msg
    → is_result_or_error msg ≡ true
    → (id : Any) × AnswersTo id msg
unfolding is_result_or_error must_id
answers_to (request m) h e = absurd (ground arith)
answers_to (notify m) h e = absurd (ground arith)
answers_to (result m) h e = (m.id, (refl, e))
answers_to (error m) h e = (m.id, (refl, e))

-- The message with another id, and nothing else changed.
abbrev pub with_id : Any → Message → Message
with_id new_id (result m) = result (record m { id = new_id })
with_id new_id (error m) = error (record m { id = new_id })
with_id new_id m = m

replace_id-with_id :
    (msg : Message) (id new_id : Any)
    → IsWellFormed msg
    → AnswersTo id msg
    → replace_id msg new_id ≡ ok (with_id new_id msg)
unfolding is_result_or_error replace_id raw_result_message raw_error_message set_trace_id
replace_id-with_id (request m) id new_id h (_, e) = absurd (ground arith)
replace_id-with_id (notify m) id new_id h (_, e) = absurd (ground arith)
replace_id-with_id (result m) id new_id (kind, _, _) own =
    ap (λ k. ok (result (record m { id = new_id; base = record m.base { kind = k } }))) (sym kind)
replace_id-with_id (error m) id new_id (kind, _, _) own =
    ap (λ k. ok (error (record m { id = new_id; base = record m.base { kind = k } }))) (sym kind)

with_id-same : (msg : Message) (id : Any) → AnswersTo id msg → with_id id msg ≡ msg
unfolding is_result_or_error must_id
with_id-same (request m) id own = refl
with_id-same (notify m) id own = refl
with_id-same (result m) id (same, e) =
    ap (λ k. result (record m { id = k })) (sym (injected m.id id same))
with_id-same (error m) id (same, e) =
    ap (λ k. error (record m { id = k })) (sym (injected m.id id same))

absent :
    (k : Any) (m : PendingRequests) → (load_and_delete k m).0 ≡ none → (load_and_delete k m).1 ≡ m
unfolding load_and_delete
absent k [] h = refl
absent k ((j, p) ∷ m) h = elim (Bool-cases (same_id j k)) [
  | inl e ↦ cc (rw e at h)
  | inr e ↦ rw e (ap (λ r. (j, p) ∷ r) (absent k m (rw e at h)))
]

module _ {T W : Type 0} where
  -- The message handler ran on the message, and nothing else changed.
  abbrev pub noticed : Message → Client T W → Client T W
  noticed msg c = record c { world = call_message_handler c.message_handler msg c.world }

  -- The message, with the id of its request and nothing else changed, was sent to the channel of the request,
  -- whose entry is gone.
  abbrev pub IsAnswered : Message → Client T W → Client T W → Type 0
  IsAnswered msg c d =
      (id : Any) × (p : PendingRequest) × AnswersTo id msg
      × (load_and_delete id c.pending_requests ≡ (some p, d.pending_requests))
      × (d
          ≡ deliver p (with_id p.reqmsg.id msg)
              (record c { pending_requests = d.pending_requests }))

  abbrev pub IsUnknown : Message → Client T W → Type 0
  IsUnknown msg c =
      (id : Any) × AnswersTo id msg × ((load_and_delete id c.pending_requests).0 ≡ none)

  handle_loaded-dispatch :
      (id : Any) (msg : Message) (o : Option PendingRequest) (rest : PendingRequests)
      (c : Client T W)
      → IsWellFormed msg
      → AnswersTo id msg
      → load_and_delete id c.pending_requests ≡ (o, rest)
      → ((d : Client T W) × (handle_loaded id msg o (record c { pending_requests = rest }) ≡ ok d)
          × ((IsUnknown msg c × (d ≡ noticed msg c)) ⊎ IsAnswered msg c d))
  unfolding handle_loaded
  handle_loaded-dispatch id msg none rest c wf own e = (
    _,
    refl,
    inl (
      (id, own, ap (λ o. o.0) e),
      ap (λ m. record (noticed msg c) { pending_requests = m })
          (sym (ap (λ o. o.1) e) ∙ absent id c.pending_requests (ap (λ o. o.0) e)),
    ),
  )
  handle_loaded-dispatch id msg (some p) rest c wf own e =
      elim (Bool-cases (same_id id p.reqmsg.id)) [
        | inl same ↦
            let unchanged =
              ap (λ k. with_id k msg) (sym (same_id_sound id p.reqmsg.id same))
              ∙ with_id-same msg id own in
            (
              _,
              rw same refl,
              inr (
                id,
                p,
                own,
                e,
                ap (λ m. deliver p m (record c { pending_requests = rest })) (sym unchanged),
              ),
            )
        | inr other ↦ (
          _,
          rw (other, replace_id-with_id msg id p.reqmsg.id wf own, ◌>>=◌) refl,
          inr (id, p, own, e, refl),
        )
      ]

  -- Of a well-formed result or error, the response goes to the pending request that was sent with its
  -- id, relabelled with the id that the caller gave it, and its entry is taken out of the table; if
  -- there is none, the message handler runs.
  pub handle_result-dispatch :
      (msg : Message) (c : Client T W)
      → IsWellFormed msg
      → is_result_or_error msg ≡ true
      → (d : Client T W) × (handle_result msg c ≡ ok d)
        × ((IsUnknown msg c × (d ≡ noticed msg c)) ⊎ IsAnswered msg c d)
  unfolding handle_result
  handle_result-dispatch msg c wf e =
      let (id, own) = answers_to msg wf e in
      let (d, same, what) = handle_loaded-dispatch id msg _ _ c wf own refl in
      (d, rw (own.0, ◌>>=◌) same, what)

module _ {T W : Type 0} (tr : Transport T) where
  -- A pass of the receiving loop that reads a well-formed message does not panic, and the loop goes
  -- on. The message handler runs on a request or a notification, and on a result or error whose id is
  -- not pending; any other result or error is sent to the channel of the pending request, with the
  -- id that the caller gave the request and otherwise as it was read, and the entry is taken out of the table.
  pub recv_round-dispatch :
      (c : Client T W) (msg : Message) (t : T)
      → connected tr c ≡ true
      → tr.read_message c.transport ≡ (readed msg, t)
      → IsWellFormed msg
      → (d : Client T W) × (recv_round tr c ≡ ok (goes_on d))
        × ((is_result_or_error msg ≡ false) × (d ≡ noticed msg (record c { transport = t }))
            ⊎ ((IsUnknown msg (record c { transport = t })
                  × (d ≡ noticed msg (record c { transport = t })))
                ⊎ IsAnswered msg (record c { transport = t }) d))
  unfolding recv_round
  recv_round-dispatch c msg t on reads wf = elim (Bool-cases (is_result_or_error msg)) [
    | inl e ↦
        let (d, same, what) = handle_result-dispatch msg (record c { transport = t }) wf e in
        (d, rw (on, reads, e, same, ◌>>=◌) refl, inr what)
    | inr e ↦ (_, rw (on, reads, e) refl, inl (e, refl))
  ]
