-- ===== src/Net/Streaming/Tests.antt =====
-- Runs of the client over a transport that reads from a list, and its theorems at concrete inputs.
use jsoff.Base.{
  Reaches, start, later, ℕ, suc, Bool, true, false, none, some, List, [], ◌∷◌, ◌≡◌, ◌⊎◌, refl, pos,
}
use jsoff.Value.{Any, int, str}
use jsoff.Result.{ok}
use jsoff.Message.{
  Message, RequestMessage, request, result, mk_request, raw_result_message, is_result_or_error,
  is_result, is_error, must_id, replace_id, set_trace_id, clone, new_request_message,
}
use jsoff.Message.Document.RoundTrip.{IsWellFormed}
use jsoff.Net.Streaming.{
  Transport, Client, goes_on, Read, skipped, readed, sent, connect, send, register, request_message,
  message_to_send, recv_round, handle_result, handle_loaded, store_pending, load_and_delete, loaded,
  same_id, store_request,
}
use jsoff.Net.Streaming.Ledger.{ExactlyOnce, AtMostOnce}
use jsoff.Net.Streaming.Reach.{Step, RacingStep, requests, quiet, stores, receives, connects, puts}
use jsoff.Net.Streaming.Reach.Serial
use jsoff.Net.Streaming.Reach.Serial.{SerialStep}
use jsoff.Net.Streaming.Reach.Answers.{racing-AtMostOnce, orderly-ExactlyOnce}
use jsoff.Net.Streaming.Reach.Channel.{TransportLaws}
use jsoff.Net.Streaming.Reach.Sending.{SendEnds, send-SendEnds}
use jsoff.Net.Streaming.Reach.Dispatch.{IsUnknown, IsAnswered, noticed, recv_round-dispatch}

record Wire : Type 0 where
  up : Bool
  inbox : List Read
  outbox : List Message

abbrev next : Wire → Read × Wire
next w = elim w.inbox [ [] ↦ (skipped, w) | r ∷ rs ↦ (r, record w { inbox = rs }) ]

abbrev wire : Transport Wire
wire = record {
  connect = λ w. (none, record w { up = true });
  close = λ w. record w { up = false };
  connected = λ w. w.up;
  read_message = next;
  write_message = λ m w. (none, record w { outbox = m ∷ w.outbox });
}

next-up : (w : Wire) → (next w).1.up ≡ w.up
next-up w =
    elim w.inbox
      as (λ i.
        (elim i as (λ _. Read × Wire) [
          | [] ↦ (skipped, w)
          | r ∷ rs ↦ (r, record w { inbox = rs })
        ]).1.up
        ≡ w.up) [ [] ↦ refl | r ∷ rs ↦ refl ]

wire-laws : TransportLaws wire
wire-laws = record {
  connect-refused = λ w e same on. cc;
  close-closed = λ w. refl;
  read-quiet = λ w on. rw⁻¹ (next-up w) on;
  write-quiet = λ m w on. on;
}

abbrev answer : Any → Message
answer id = result (raw_result_message id (str "yes") none)

-- A client that is not connected, to a server that will send the message; its handler counts.
abbrev idle : Read → Client Wire ℕ
idle r = record {
  transport = record { up = false; inbox = r ∷ []; outbox = [] };
  pending_requests = [];
  message_handler = some (λ m n. suc n);
  connected_handler = none;
  close_handler = none;
  cancel_func = false;
  send_channel = none;
  close_channel = false;
  closed = [];
  world = 0;
  results = [];
  channels = 0;
}

abbrev ping : RequestMessage
ping = record {
  base = record { kind = mk_request; trace_id = "t" };
  id = int (pos 1);
  method = "ping";
  params = [];
  params_are_list = true;
}

-- The client after two requests with the same id; the second is sent with a new one.
abbrev two_pings : Client Wire ℕ
two_pings = record (idle (readed (answer (str "u")))) {
  transport = record { up = true; inbox = readed (answer (str "u")) ∷ []; outbox = [] };
  pending_requests =
      (int (pos 1), record { reqmsg = ping; result_channel = 0 })
      ∷ (str "u", record { reqmsg = ping; result_channel = 1 })
      ∷ [];
  cancel_func = true;
  send_channel = some (request ping ∷ request (record ping { id = str "u" }) ∷ []);
  close_channel = true;
  channels = 2;
}

abbrev one_ping : Client Wire ℕ
one_ping = record two_pings {
  pending_requests = (int (pos 1), record { reqmsg = ping; result_channel = 0 }) ∷ [];
  send_channel = some (request ping ∷ []);
  channels = 1;
}

-- A name that unfolds the client.
client : Unit {0}
unfolding request_message register message_to_send connect send store_request store_pending
    load_and_delete loaded same_id clone new_request_message recv_round handle_result handle_loaded
    is_result_or_error is_result is_error must_id replace_id set_trace_id raw_result_message
client = tt

first_ping : request_message wire ping "u" (idle (readed (answer (str "u")))) ≡ ok (sent, one_ping)
unfolding client
first_ping = refl

second_ping : request_message wire ping "u" one_ping ≡ ok (sent, two_pings)
unfolding client
second_ping = refl

-- The response to the second request has the id that the caller gave it.
abbrev answered : Client Wire ℕ
answered = record two_pings {
  transport = record { up = true; inbox = []; outbox = [] };
  pending_requests = (int (pos 1), record { reqmsg = ping; result_channel = 0 }) ∷ [];
  results = (record { reqmsg = ping; result_channel = 1 }, answer (int (pos 1))) ∷ [];
}

receives_answer : recv_round wire two_pings ≡ ok (goes_on answered)
unfolding client
receives_answer = refl

free_uuid : loaded (str "u") one_ping.pending_requests ≡ false
unfolding client
free_uuid = refl

free_at_start : loaded (str "u") (idle (readed (answer (str "u")))).pending_requests ≡ false
unfolding client
free_at_start = refl

-- What a request registers, after the connection.
registers_first :
    register wire ping "u" (connect wire (idle (readed (answer (str "u"))))).1
    ≡ ok (ping, record one_ping { send_channel = some [] })
unfolding client
registers_first = refl

registers_second :
    register wire ping "u" one_ping
    ≡ ok (record ping { id = str "u" }, record two_pings { send_channel = one_ping.send_channel })
unfolding client
registers_second = refl

run : Reaches (Step wire) (idle (readed (answer (str "u")))) answered
unfolding client
run =
    later
      (later
        (later
          (later
            (later (later start (quiet connects))
              (requests ping "u" ping _ free_at_start registers_first))
            (quiet (puts (request ping))))
          (requests ping "u" (record ping { id = str "u" }) _ free_uuid registers_second))
        (quiet (puts (request (record ping { id = str "u" })))))
      (quiet (receives (goes_on answered) receives_answer))

serial_run : Reaches (SerialStep wire) (idle (readed (answer (str "u")))) answered
serial_run =
    later
      (later (later start (Serial.requests ping "u" sent one_ping first_ping))
        (Serial.requests ping "u" sent two_pings second_ping))
      (Serial.receives (goes_on answered) receives_answer)

orderly-ExactlyOnce_example : ExactlyOnce answered
orderly-ExactlyOnce_example =
    orderly-ExactlyOnce wire (idle (readed (answer (str "u")))) answered (refl, refl, refl) run

-- Two requests that both found their id free: the second entry takes the place of the first, whose
-- channel is held by nothing from then on.
abbrev raced : Client Wire ℕ
raced = record (idle skipped) {
  pending_requests = (int (pos 1), record { reqmsg = ping; result_channel = 1 }) ∷ [];
  channels = 2;
}

overwrites :
    store_request ping (int (pos 1)) (store_request ping (int (pos 1)) (idle skipped)) ≡ raced
unfolding client
overwrites = refl

race : Reaches (RacingStep wire) (idle skipped) raced
unfolding client
race = later (later start (stores ping (int (pos 1)))) (stores ping (int (pos 1)))

racing-AtMostOnce_example : AtMostOnce raced
racing-AtMostOnce_example = racing-AtMostOnce wire (idle skipped) raced (refl, refl, refl) race

send-SendEnds_example :
    SendEnds wire (request ping) (connect wire answered) (send wire (request ping) answered)
send-SendEnds_example =
    send-SendEnds wire wire-laws (idle (readed (answer (str "u")))) answered (request ping) refl
      serial_run

well_formed : IsWellFormed (answer (str "u"))
unfolding raw_result_message
well_formed = (refl, tt, refl)

recv_round-dispatch_example :
    (d : Client Wire ℕ) × (recv_round wire two_pings ≡ ok (goes_on d))
    × ((is_result_or_error (answer (str "u")) ≡ false)
          × (d ≡ noticed (answer (str "u")) (record two_pings { transport = answered.transport }))
        ⊎ ((IsUnknown (answer (str "u")) (record two_pings { transport = answered.transport })
              × (d
                  ≡ noticed
                      (answer (str "u"))
                      (record two_pings { transport = answered.transport })))
            ⊎ IsAnswered
                (answer (str "u"))
                (record two_pings { transport = answered.transport })
                d))
recv_round-dispatch_example =
    recv_round-dispatch wire two_pings (answer (str "u")) answered.transport refl refl well_formed
