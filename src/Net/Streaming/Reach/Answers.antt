-- ===== src/Net/Streaming/Reach/Answers.antt =====
-- Every call gets at most one response, and the response is its own.
use jsoff.Base.{Reaches-keeps, Reaches, String, ◌==◌, false, [], ◌≡◌, inl, inr, Bool-cases, arith}
use mathlib.Core.Path.{subst}
use jsoff.Value.{str}
use jsoff.Result.{>>=-OnOk, OnOk}
use jsoff.Message.{RequestMessage, clone, new_request_message}
use jsoff.Net.Streaming.{Transport, Client, loaded, message_to_send, register}
use jsoff.Net.Streaming.Ledger.{
  Settles-AtMostOnce, Settles-ExactlyOnce, AtMostOnce, ExactlyOnce, store_request-AtMostOnce,
  store_request-ExactlyOnce,
}
use jsoff.Net.Streaming.Reach.{Step, quiet, requests, RacingStep, stores}
use jsoff.Net.Streaming.Reach.Settled.{Quiet-Settles}

-- No channel was made, and no response sent.
abbrev pub IsFresh : {T W : Type 0} → Client T W → Type 0
IsFresh c = (c.pending_requests ≡ []) × (c.results ≡ []) × (c.channels ≡ 0)

-- If a message was found to be sent, no entry is loaded for its id.
message_to_send-new :
    {T W : Type 0} (m : RequestMessage) (new_uuid : String) (c : Client T W)
    → loaded (str new_uuid) c.pending_requests ≡ false
    → OnOk (λ r. loaded r.id c.pending_requests ≡ false) (message_to_send m new_uuid c)
unfolding message_to_send clone new_request_message
message_to_send-new m new_uuid c h = elim (Bool-cases (loaded m.id c.pending_requests)) [
  | inl e ↦ rw e (elim (Bool-cases (m.method == "")) [ inl e' ↦ rw e' tt | inr e' ↦ rw e' h ])
  | inr e ↦ rw e e
]

module _ {T W : Type 0} (tr : Transport T) where
  register-ExactlyOnce :
      (m : RequestMessage) (new_uuid : String) (c : Client T W)
      → loaded (str new_uuid) c.pending_requests ≡ false
      → ExactlyOnce c
      → OnOk (λ o. ExactlyOnce o.1) (register tr m new_uuid c)
  unfolding register
  register-ExactlyOnce m new_uuid c new once =
      >>=-OnOk (λ r. loaded r.id c.pending_requests ≡ false) (λ o. ExactlyOnce o.1)
        (message_to_send m new_uuid c) _ (message_to_send-new m new_uuid c new)
        (λ r free. store_request-ExactlyOnce m r.id c free once)

  Step-ExactlyOnce : (c d : Client T W) → Step tr c d → ExactlyOnce c → ExactlyOnce d
  Step-ExactlyOnce c d (quiet q) once = Settles-ExactlyOnce c d (Quiet-Settles tr c d q) once
  Step-ExactlyOnce c d (requests m new_uuid sendmsg _ new e) once =
      subst (OnOk (λ o. ExactlyOnce o.1)) e (register-ExactlyOnce m new_uuid c new once)

  Step-AtMostOnce : (c d : Client T W) → RacingStep tr c d → AtMostOnce c → AtMostOnce d
  Step-AtMostOnce c d (quiet q) once = Settles-AtMostOnce c d (Quiet-Settles tr c d q) once
  Step-AtMostOnce c d (stores m k) once = store_request-AtMostOnce m k c once

  -- Whatever goroutines do in whatever order from a fresh client on, also if requests race for an id,
  -- a result channel has one pending request at most or one response at most, never both, and a
  -- response carries the id of the request as its caller made it.
  pub racing-AtMostOnce :
      (c d : Client T W) → IsFresh c → Reaches (RacingStep tr) c d → AtMostOnce d
  racing-AtMostOnce c d (empty, no_results, no_channels) run =
      Reaches-keeps (RacingStep tr) AtMostOnce Step-AtMostOnce c d run
        (λ n. rw (empty, no_results, no_channels) (omega arith), rw no_results tt)

  -- If no two requests race, and a new id is not in use, then each channel that a request made has
  -- its pending request or its response, exactly one of them, and no other channel has any; and a
  -- response carries the id of the request as its caller made it.
  pub orderly-ExactlyOnce : (c d : Client T W) → IsFresh c → Reaches (Step tr) c d → ExactlyOnce d
  orderly-ExactlyOnce c d (empty, no_results, no_channels) run =
      Reaches-keeps (Step tr) ExactlyOnce Step-ExactlyOnce c d run
        (λ n. rw (empty, no_results, no_channels) (ground arith), rw no_results tt)
