-- ===== src/Examples/Sessions.antt =====
-- A round of `Run` against a controller with one light: the baseline succeeds, a push turns the light
-- on, the subscriber receives the two changes, and then the polls fail.
use pentameter.Prelude.{ℕ, ◌*◌, String, some, none, List, [], ◌∷◌, ◌≡◌, refl, replicate, map, true}
use pentameter.Examples.Numbers.{tenths}
use pentameter.IntelliCenter.Types.{Response}
use pentameter.IntelliCenter.Result.{ok, err, read_failed}
use pentameter.IntelliCenter.Json.{Fields, end, field, text, array, object, cons, nil}
use pentameter.IntelliCenter.Client.{frame, broken, written, Conn, Client}
use pentameter.IntelliCenter.Client.Retry.{dial_fails, dial_connects}
use pentameter.IntelliCenter.Engine.{Engine, new_engine, subscribe}
use pentameter.Prelude.Map.{lookup, insert, merge}
use pentameter.IntelliCenter.Client.{query, await, next_message_id, read_message, do_raw}
use pentameter.IntelliCenter.Engine.{
  apply_and_emit, apply, absorb, reparse, diff_store, emit, offer_all,
}
use pentameter.IntelliCenter.Engine.Rounds.{run_round}
use pentameter.IntelliCenter.Engine.Scan.{scan, scan_pump_circuits, query_sensor, refresh_body}
use pentameter.IntelliCenter.Engine.Config.{load_config}
use pentameter.IntelliCenter.Engine.Running.{
  hear_change, hear_poll, attempt, over_req, take_message, hear_push,
}
use pentameter.IntelliCenter.Engine.Push.{handle_push}
use pentameter.IntelliCenter.Types.{eq_circuit}
use pentameter.IntelliCenter.Parse.{circuit_from}
use pentameter.IntelliCenter.Engine.Mirror.{IsValid}
use pentameter.IntelliCenter.Engine.Reach.{start, next, subscribed}
use pentameter.IntelliCenter.Engine.Running.{
  tick, message, refresh, receive, late, engine_steps, Round, Running, before_run, run_engine,
}
use pentameter.IntelliCenter.Engine.Running.Natural.{Call}
use pentameter.IntelliCenter.Engine.Running.Log.{log_hooks}
use pentameter.IntelliCenter.Engine.Running.Safe.{run_engine-IsValid}
use pentameter.IntelliCenter.Engine.Running.Down.{IsDown}
use pentameter.Monitor.Exporter.Running.{metrics_hooks, events_of, run_engine-Follows}
use pentameter.Monitor.Exporter.{new_exporter}
use pentameter.Monitor.Exporter.Follows.{Follows, shown, nothing_shown}
use pentameter.IntelliCenter.Engine.Rounds.{run, seconds, engine_reconnect}
use pentameter.IntelliCenter.Engine.Backoff.{GoesOn, run_engine-delays}

abbrev answer : String → Response
answer id = record {
  command = "SendParamList";
  message_id = id;
  response = "200";
  object_list = [];
}

abbrev light : Response
light = record (answer "circuit-7-42") {
  object_list =
      record {
        obj_name = "C0001";
        params = ("SNAME", "Pool Light") ∷ ("SUBTYP", "INTELLI") ∷ ("STATUS", "OFF") ∷ [];
      }
      ∷ [];
}

abbrev light_on : Fields
light_on =
    field "objectList"
      (array (
        cons
          (object (
            field "objnam" (text "C0001")
              (field "params" (object (field "STATUS" (text "ON") end)) end)))
          nil))
      end

-- The queries of one scan are answered; nothing after them is.
abbrev req_conn : Conn
req_conn = record {
  writes = replicate 5 written;
  frames =
      frame (some light) none
      ∷ frame (some (answer "body-7-42")) none
      ∷ frame (some (answer "pump-7-42")) none
      ∷ frame (some (answer "heater-7-42")) none
      ∷ frame (some (answer "sensor-7-42")) none
      ∷ [];
  sent = [];
}

abbrev push_conn : Conn
push_conn = record { writes = []; frames = frame none (some light_on) ∷ broken ∷ []; sent = [] }

abbrev lived : Round
lived = record {
  before = late 0 ∷ [];
  closing = [];
  resolved = ok "10.0.0.5";
  req_dials = dial_fails ∷ dial_connects ∷ [];
  push_dials = dial_connects ∷ [];
  req_conn = req_conn;
  push_conn = push_conn;
  clock = λ n. (7, 42);
  turns = receive 0 ∷ message ∷ receive 0 ∷ refresh "B1101" ∷ tick ∷ tick ∷ tick ∷ tick ∷ [];
}

abbrev unresolved : Round
unresolved = record lived { resolved = err read_failed }

-- The push socket fails, and the poll loop goes on: in this round, and in the next.
abbrev cut : Round
cut = record lived { turns = message ∷ message ∷ tick ∷ []; closing = tick ∷ [] }

abbrev reconnecting : List Round
reconnecting = cut ∷ lived ∷ []

abbrev watched : Engine ℕ
watched = subscribe new_engine

abbrev rounds : List Round
rounds = unresolved ∷ lived ∷ []

-- The clock of the exporter ticks once a minute.
abbrev minutes : ℕ → ℕ
minutes n = n * 60

run_engine-IsValid_example :
    IsValid (run_engine log_hooks reconnecting (before_run watched [])).engine
    × IsDown log_hooks (run_engine log_hooks reconnecting (before_run watched []))
unfolding before_run
run_engine-IsValid_example =
    run_engine-IsValid log_hooks reconnecting (before_run watched []) (next start subscribed)
      (refl, refl, refl, refl, refl)

run_engine-Follows_example :
    Follows
      (shown
        (events_of minutes 0 (run_engine log_hooks reconnecting (before_run watched [])).heard)
        nothing_shown)
      (run_engine
        (metrics_hooks minutes)
        reconnecting
        (before_run watched (new_exporter, 0))).heard.0
run_engine-Follows_example = run_engine-Follows minutes reconnecting watched

abbrev client : Client
client = record { conn = some req_conn; seq = 0; clock = λ n. (7, 42) }

-- A poll loop that has failed once is left, while the next session is live.
abbrev live : Running ℕ (List (Call ℕ))
live = record (before_run watched []) { is_live = true; req = client }

run_engine-delays_example :
    (run
      (map
        (engine_steps log_hooks)
        (lived ∷ unresolved ∷ unresolved ∷ unresolved ∷ replicate 2 unresolved))
      engine_reconnect
      (before_run watched [])).0
    ≡ seconds 2 ∷ seconds 4 ∷ seconds 8 ∷ seconds 16 ∷ replicate 2 (seconds 30)
unfolding GoesOn run_round before_run engine_steps scan query await next_message_id read_message
    hear_change hear_poll scan_pump_circuits load_config do_raw query_sensor lookup apply_and_emit
    apply absorb reparse diff_store subscribe emit offer_all attempt over_req take_message
    handle_push hear_push insert eq_circuit circuit_from merge refresh_body
run_engine-delays_example =
    run_engine-delays log_hooks lived unresolved unresolved unresolved (replicate 2 unresolved)
      (before_run watched []) (refl, (refl, (refl, (refl, (refl, (refl, tt))))))
