-- ===== src/Net/Streaming/Ledger.antt =====
-- How often a result channel is held: by pending requests, and by responses that were sent to it.
-- What the actions of the client do to that.
use jsoff.Base.{
  ◌==◌, ℕ, ◌+◌, ◌≤◌, false, Option, none, some, List, [], ◌∷◌, ◌≡◌, refl, ap, ◌∙◌, inl, inr, ltb,
  if◌then◌else◌, All, Bool-cases, arith,
}
use jsoff.Value.{Any}
use jsoff.Result.{OnOk, >>=-OnOk, RpcError, err_timeout, ok}
use jsoff.Message.{
  Message, RequestMessage, request, notify, result, error, must_id, replace_id, to_message, clone,
  new_request_message,
}
use jsoff.Net.Streaming.{
  Client, PendingRequest, same_id, loaded, load_and_delete, deliver, handle_loaded, handle_result,
  expire, time_out, store_request,
}
use jsoff.Net.Streaming.Table.{
  same_id_sound, one_if_some, with_channel, waiting, waiting-load_and_delete, waiting-store_pending,
  waiting-store_pending_new,
}

abbrev pub asked : List (PendingRequest × Message) → List PendingRequest
asked [] = []
asked ((p, msg) ∷ r) = p ∷ asked r

-- The response carries the id of the request as the caller made it.
abbrev pub IsOwn : PendingRequest × Message → Type 0
IsOwn (p, msg) = must_id msg ≡ ok p.reqmsg.id

abbrev Named : Any → Message → Type 0
Named id msg = must_id msg ≡ ok id

replace_id-Named : (msg : Message) (id : Any) → OnOk (Named id) (replace_id msg id)
unfolding must_id replace_id clone new_request_message
replace_id-Named (request m) id = elim (Bool-cases (m.method == "")) [
  | inl e ↦ rw e tt
  | inr e ↦ rw e refl
]
replace_id-Named (notify m) id = tt
replace_id-Named (result m) id = refl
replace_id-Named (error m) id = refl

pub must_id-OnOk : (msg : Message) → OnOk (λ id. Named id msg) (must_id msg)
unfolding must_id
must_id-OnOk (request m) = refl
must_id-OnOk (notify m) = tt
must_id-OnOk (result m) = refl
must_id-OnOk (error m) = refl

to_message-Named : (e : RpcError) (m : RequestMessage) → Named m.id (to_message e m)
unfolding to_message must_id
to_message-Named e m = refl

module _ {T W : Type 0} where
  abbrev pub holders : ℕ → Client T W → ℕ
  holders n c = waiting n c.pending_requests + with_channel n (asked c.results)

  -- An action that makes no request: every channel is held as often as before, and responses that
  -- were added are for the request they are sent for.
  abbrev pub Settles : Client T W → Client T W → Type 0
  Settles c d =
      (d.channels ≡ c.channels)
      × ((n : ℕ) → holders n d ≡ holders n c)
      × (All IsOwn c.results → All IsOwn d.results)

  pub Settles-refl : (c : Client T W) → Settles c c
  Settles-refl c = (refl, λ n. refl, λ h. h)

  pub Settles-trans : (a b c : Client T W) → Settles a b → Settles b c → Settles a c
  Settles-trans a b c (ch, same, own) (ch', same', own') =
      (ch' ∙ ch, λ n. same' n ∙ same n, λ h. own' (own h))

  -- The client with the entry of an id taken out, and what was taken.
  abbrev taken_out : Any → Client T W → Client T W
  taken_out k c = record c { pending_requests = (load_and_delete k c.pending_requests).1 }

  abbrev Taken : Option PendingRequest → Client T W → Client T W → Type 0
  Taken o c d =
      (d.channels ≡ c.channels)
      × ((n : ℕ) → one_if_some n o + holders n d ≡ holders n c)
      × (All IsOwn c.results → All IsOwn d.results)

  Taken-none : (c d : Client T W) → Taken none c d → Settles c d
  Taken-none c d (ch, same, own) = (ch, λ n. omega (arith, same n), own)

  taken_out-Taken :
      (k : Any) (c : Client T W) → Taken (load_and_delete k c.pending_requests).0 c (taken_out k c)
  taken_out-Taken k c =
      (refl, λ n. omega (arith, waiting-load_and_delete n k c.pending_requests), λ h. h)

  deliver-Settles :
      (p : PendingRequest) (msg : Message) (c d : Client T W)
      → Taken (some p) c d
      → must_id msg ≡ ok p.reqmsg.id
      → Settles c (deliver p msg d)
  deliver-Settles p msg c d (ch, same, own) e = (ch, λ n. omega (arith, same n), λ h. (e, own h))

  handle_loaded-Settles :
      (id : Any) (msg : Message) (o : Option PendingRequest) (c d : Client T W)
      → Named id msg
      → Taken o c d
      → OnOk (Settles c) (handle_loaded id msg o d)
  unfolding handle_loaded
  handle_loaded-Settles id msg none c d named taken = Taken-none c d taken
  handle_loaded-Settles id msg (some p) c d named taken =
      elim (Bool-cases (same_id id p.reqmsg.id)) [
        | inl e ↦
            rw e (deliver-Settles p msg c d taken (named ∙ ap ok (same_id_sound id p.reqmsg.id e)))
        | inr e ↦ rw e (
            >>=-OnOk (Named p.reqmsg.id) (Settles c) (replace_id msg p.reqmsg.id) _
              (replace_id-Named msg p.reqmsg.id) (λ r own. deliver-Settles p r c d taken own))
      ]

  pub handle_result-Settles :
      (msg : Message) (c : Client T W) → OnOk (Settles c) (handle_result msg c)
  unfolding handle_result
  handle_result-Settles msg c =
      >>=-OnOk (λ id. Named id msg) (Settles c) (must_id msg) _ (must_id-OnOk msg)
        (λ id named. handle_loaded-Settles id msg _ c _ named (taken_out-Taken id c))

  time_out-Settles :
      (o : Option PendingRequest) (c d : Client T W) → Taken o c d → Settles c (time_out o d)
  time_out-Settles none c d taken = Taken-none c d taken
  time_out-Settles (some p) c d taken =
      deliver-Settles p _ c d taken (to_message-Named err_timeout p.reqmsg)

  pub expire-Settles : (k : Any) (c : Client T W) → Settles c (expire k c)
  unfolding expire
  expire-Settles k c = time_out-Settles _ c _ (taken_out-Taken k c)

  -- The invariants: a channel that was made is held at most once, or exactly once; no other is held;
  -- and every response carries the id of its request.
  abbrev pub AtMostOnce : Client T W → Type 0
  AtMostOnce c = ((n : ℕ) → holders n c ≤ (if ltb n c.channels then 1 else 0)) × All IsOwn c.results

  abbrev pub ExactlyOnce : Client T W → Type 0
  ExactlyOnce c =
      ((n : ℕ) → holders n c ≡ (if ltb n c.channels then 1 else 0)) × All IsOwn c.results

  pub Settles-AtMostOnce : (c d : Client T W) → Settles c d → AtMostOnce c → AtMostOnce d
  Settles-AtMostOnce c d (ch, same, own) (once, owns) = (λ n. rw (ch, same n) (once n), own owns)

  pub Settles-ExactlyOnce : (c d : Client T W) → Settles c d → ExactlyOnce c → ExactlyOnce d
  Settles-ExactlyOnce c d (ch, same, own) (once, owns) = (λ n. rw (ch, same n) (once n), own owns)

  pub store_request-AtMostOnce :
      (m : RequestMessage) (k : Any) (c : Client T W)
      → AtMostOnce c
      → AtMostOnce (store_request m k c)
  unfolding store_request
  store_request-AtMostOnce m k c (once, own) = (
    λ n. ground (
      arith,
      once n,
      waiting-store_pending n k (record { reqmsg = m; result_channel = c.channels })
          c.pending_requests,
    ),
    own,
  )

  pub store_request-ExactlyOnce :
      (m : RequestMessage) (k : Any) (c : Client T W)
      → loaded k c.pending_requests ≡ false
      → ExactlyOnce c
      → ExactlyOnce (store_request m k c)
  unfolding store_request
  store_request-ExactlyOnce m k c new (once, own) = (
    λ n. ground (
      arith,
      once n,
      waiting-store_pending_new n k (record { reqmsg = m; result_channel = c.channels })
          c.pending_requests new,
    ),
    own,
  )
