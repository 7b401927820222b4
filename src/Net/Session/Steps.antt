-- ===== src/Net/Session/Steps.antt =====
-- The actions of the goroutines of a session, in any order.
use jsoff.Base.{true, false, String, Option, List, [], ◌∷◌, ◌++◌, ◌≡◌}
use jsoff.Value.{Any}
use jsoff.Result.{GoError, Result}
use jsoff.Message.{Message}
use jsoff.Net.Http1.{Json}
use jsoff.Net.Session.{
  Server, Session, Task, goes_on, Frame, Next, ws_receive, stream_receive, run_task, send,
  send_pass, end_session,
}

module _ {W : Type 0} (json : Json) (decode_template : Message → Result (List (String × Any)))
    (server : Server W) (id : String) where
  -- The receiving loop runs; without a goroutine for each message it handles one before it reads the next.
  abbrev pub IsReady : Session W → Type 0
  IsReady s = (s.receiving ≡ true) × (server.spawn ≡ false → s.tasks ≡ [])

  -- A program that crashed takes no step.
  pub data Step (s : Session W) : Session W → Type 0 where
    ws_reads : (f : Frame) → s.crashed ≡ false → IsReady s → Step s (ws_receive json f s)
    stream_reads : (n : Next) → s.crashed ≡ false → IsReady s → Step s (stream_receive n s)
    runs :
        (before after : List Task) (t : Task) (d : Session W)
        → s.crashed ≡ false
        → s.tasks ≡ before ++ t ∷ after
        → run_task decode_template server id t (record s { tasks = before ++ after }) ≡ goes_on d
        → Step s d
    writes :
        (failure : Option GoError) (d : Session W)
        → s.crashed ≡ false
        → s.sending ≡ true
        → send_pass server json failure s s.send_channel ≡ goes_on d
        → Step s d
    pushes : (msg : Message) (d : Session W) → s.crashed ≡ false → send msg s ≡ goes_on d → Step s d
    ends : s.crashed ≡ false → s.is_open ≡ true → Step s (end_session server id s)
