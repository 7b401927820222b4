-- ===== src/Net/Session/Balance.antt =====
-- How many requests a session received, and where their responses are. Requests are counted by a weight
-- of their id and trace id, so that the counts of every weight agree if and only if each id does.
pub mod Fed
pub mod Kept
use jsoff.Base.{ℕ, ◌+◌, Bool, false, String, List, ◌≡◌, All, sum_by}
use jsoff.Value.{Any}
use jsoff.Result.{Result, ok, err, panic, OnOk}
use jsoff.Message.{Message, request, must_id, trace_id}
use jsoff.Message.Document.RoundTrip.{IsWellFormed}
use jsoff.Net.Session.{Outgoing, answer, pushed, Task, to_feed, to_send, to_end, Session}

abbrev pub Weight : Type 0
Weight = Any → String → ℕ

-- The weight of what was received, if that is a request.
abbrev pub asks : Weight → Result Message → ℕ
asks w (ok (request m)) = w m.id m.base.trace_id
asks w _ = 0

abbrev pub given : Weight → Result Any → String → ℕ
given w (ok id) trace = w id trace
given w _ trace = 0

-- The weight of an answer.
abbrev pub answers : Weight → Outgoing → ℕ
answers w (answer r) = given w (must_id r) (trace_id r)
answers w (pushed r) = 0

abbrev pub task_load : Weight → Task → ℕ
task_load w (to_feed r) = asks w r
task_load w (to_send o) = answers w o
task_load w (to_end e) = 0

abbrev pub written_load : Weight → Outgoing × String → ℕ
written_load w (o, text) = answers w o

module _ {W : Type 0} where
  -- The weight of the requests that wait for their turn and of the answers, on their way, written or lost.
  abbrev pub load : Weight → Session W → ℕ
  load w s =
      sum_by (task_load w) s.tasks
      + sum_by (answers w) s.send_channel
      + sum_by (written_load w) s.written
      + sum_by (answers w) s.lost

  abbrev pub Balanced : Session W → Type 0
  Balanced s = s.crashed ≡ false → (w : Weight) → sum_by (asks w) s.received ≡ load w s

-- A message that is to be fed was decoded, so it is well formed.
abbrev pub Fit : Task → Type 0
Fit (to_feed r) = OnOk IsWellFormed r
Fit _ = Unit

abbrev pub Holds : {W : Type 0} → Session W → Type 0
Holds s = All Fit s.tasks × Balanced s
