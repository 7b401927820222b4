-- ===== src/Net/Session/Order.antt =====
-- The order of requests and answers in a session whose server handles each message before it reads the
-- next. A key is the id and trace id of a request, or of the answer to it.
pub mod Fed
pub mod Kept
use jsoff.Base.{false, true, String, List, [], ◌∷◌, ◌++◌, ◌≡◌, ◌⊎◌, All, flat, in_order}
use jsoff.Value.{Any}
use jsoff.Result.{Result, ok, err, panic}
use jsoff.Message.{Message, request, must_id, trace_id}
use jsoff.Net.Session.{Outgoing, answer, pushed, Task, to_feed, to_send, to_end, Session}
use jsoff.Net.Session.Balance.{Fit}

abbrev pub Keys : Type 0
Keys = List (Any × String)

abbrev pub asked : Result Message → Keys
asked (ok (request m)) = (m.id, m.base.trace_id) ∷ []
asked _ = []

abbrev pub key_of : Result Any → String → Keys
key_of (ok id) trace = (id, trace) ∷ []
key_of _ trace = []

abbrev pub answered_key : Outgoing → Keys
answered_key (answer r) = key_of (must_id r) (trace_id r)
answered_key (pushed r) = []

abbrev pub task_keys : Task → Keys
task_keys (to_feed r) = asked r
task_keys (to_send o) = answered_key o
task_keys (to_end e) = []

abbrev pub written_key : Outgoing × String → Keys
written_key (o, text) = answered_key o

module _ {W : Type 0} where
  -- What was written and lost, and what is in the channel.
  abbrev pub sent_keys : Session W → Keys
  sent_keys s =
      in_order written_key s.written
      ++ (in_order answered_key s.lost ++ flat answered_key s.send_channel)

  -- The requests, in the order in which they were received, are those of the answers that were written, in
  -- the order of writing, then of one that was lost, of those in the channel, and of the task.
  abbrev pub Ordered : Session W → Type 0
  Ordered s = s.crashed ≡ false → in_order asked s.received ≡ sent_keys s ++ flat task_keys s.tasks

  -- At most one task, and nothing is lost while the sending loop runs.
  abbrev pub OneByOne : Session W → Type 0
  OneByOne s =
      ((s.tasks ≡ []) ⊎ ((t : Task) × (s.tasks ≡ t ∷ [])))
      × (s.crashed ≡ false → s.sending ≡ true → s.lost ≡ [])

  abbrev pub HoldsOrder : Session W → Type 0
  HoldsOrder s = All Fit s.tasks × OneByOne s × Ordered s
