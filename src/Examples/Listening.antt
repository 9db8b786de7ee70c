-- ===== src/Examples/Listening.antt =====
-- Listen mode and the exporter at concrete inputs.
use pentameter.Prelude.{ℕ, true, none, some, List, [], ◌∷◌, ◌++◌, ◌||◌, not, ◌≡◌}
use pentameter.Examples.Numbers.{tenths}
use pentameter.IntelliCenter.Types.{Response, circuit}
use pentameter.IntelliCenter.Client.{frame, written, Client}
use pentameter.IntelliCenter.Engine.{Engine, new_engine}
use pentameter.Monitor.Watch.{Line, state_of}
use pentameter.Monitor.State.{PoolMonitor, new_pool_monitor}
use pentameter.Monitor.Refresh.{refresh_from_engine}
use pentameter.Monitor.Listen.{listener, listen_poll}
use pentameter.Monitor.Listen.Lines.{changes, silences}
use pentameter.Monitor.Listen.Lines.Poll.{ending, listen_poll-lines}
use pentameter.Monitor.Listen.Deaf.{deaf}
use pentameter.Monitor.Listen.Deaf.Refreshed.{refresh_from_engine-Deaf}

-- A controller with one circuit, and an answer about a member of a group.
abbrev engine : Engine ℕ
engine = record new_engine {
  kind = ("C0001", circuit) ∷ [];
  params = ("C0001", ("SNAME", "Light") ∷ ("STATUS", "ON") ∷ ("SUBTYP", "LIGHT") ∷ []) ∷ [];
}

abbrev members : Response
members = record {
  command = "SendParamList";
  message_id = "do-7-42";
  response = "200";
  object_list =
      record {
        obj_name = "c0101";
        params = ("CIRCUIT", "C0001") ∷ ("PARENT", "GRP01") ∷ ("ACT", "ON") ∷ ("USE", "") ∷ [];
      }
      ∷ [];
}

abbrev client : Client
client = record {
  conn = some (record {
    writes = written ∷ written ∷ [];
    frames = frame (some members) none ∷ frame (some members) none ∷ [];
    sent = [];
  });
  seq = 0;
  clock = λ n. (7, 42);
}

abbrev listening_monitor : PoolMonitor ℕ
listening_monitor = listener (new_pool_monitor true)

listen_poll-lines_example :
    (ls : List (Line ℕ)) × ((listen_poll true engine (client, listening_monitor)).1.watch.lines
      ≡ listening_monitor.watch.lines
        ++ (ls ++ ending (true || not listening_monitor.watch.initial_poll_done) (changes ls)))
    × ((state_of (listen_poll true engine (client, listening_monitor)).1.watch.previous_state
          ).poll_change_count
        ≡ changes ls)
    × ((listen_poll true engine (client, listening_monitor)).1.watch.initial_poll_done ≡ true)
    × (silences ls ≡ 0)
listen_poll-lines_example = listen_poll-lines true engine client listening_monitor

refresh_from_engine-Deaf_example :
    deaf (refresh_from_engine engine listening_monitor)
    ≡ deaf (refresh_from_engine engine (deaf listening_monitor))
refresh_from_engine-Deaf_example = refresh_from_engine-Deaf ℕ engine listening_monitor
