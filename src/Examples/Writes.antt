-- ===== src/Examples/Writes.antt =====
-- A write, a push and a refresh at concrete inputs.
use pentameter.Prelude.{
  ℕ, ◌≢◌, String, true, false, none, some, [], ◌∷◌, ◌++◌, ◌≡◌, refl, arith, get_elem?,
}
use pentameter.Prelude.Int.{pos, ◌<ℤ◌}
use pentameter.Prelude.Map.{Map, lookup, lookup_or}
use pentameter.Prelude.Text.{ne_of_test}
use pentameter.Config.{determine_poll_interval, determine_poll_interval-wraps}
use pentameter.Config.Main.{
  CommandLineFlags, IsAskedFor, config_of, run_listen_engine, parse_command_line_flags,
  parse_command_line_flags-IsAskedFor,
}
use pentameter.Examples.Numbers.{tenths}
use pentameter.IntelliCenter.Types.{Response, ObjectData, circuit}
use pentameter.IntelliCenter.Parse.{body_from}
use pentameter.IntelliCenter.Json.{Fields, end, field, text, array, object, cons, nil}
use pentameter.IntelliCenter.Client.{
  frame, written, Conn, Client, await, next_message_id, round_trip,
}
use pentameter.IntelliCenter.Control.{set_params}
use pentameter.IntelliCenter.Written.{stamp, write_request, set_params_sent}
use pentameter.IntelliCenter.Engine.{Engine, body_change, merged, new_engine}
use pentameter.IntelliCenter.Engine.Scan.{refresh_from}
use pentameter.IntelliCenter.Engine.Push.{handle_push, extract_push_objects}
use pentameter.IntelliCenter.Engine.Replay.{apply_updates}
use pentameter.IntelliCenter.Engine.Told.{handle_push_updates, refresh_from_tells}

abbrev accepted : Response
accepted = record {
  command = "SetParamList";
  message_id = "set-7-42";
  response = "200";
  object_list = [];
}

abbrev client : Client
client = record {
  conn =
      some (record { writes = written ∷ []; frames = frame (some accepted) none ∷ []; sent = [] });
  seq = 0;
  clock = λ n. (7, 42);
}

abbrev light_on : Map String
light_on = ("STATUS", "ON") ∷ []

set_params_sent_example :
    (k : Conn) × (k' : Conn) × (client.conn ≡ some k)
    × ((set_params "C0001" light_on client).1.conn ≡ some k')
    × (k'.sent ≡ stamp "set" (write_request "C0001" light_on) client ∷ k.sent)
    × (◌≢◌ {A = String} "C0001" "")
    × (light_on ≢ [])
unfolding set_params round_trip next_message_id await
set_params_sent_example = set_params_sent "C0001" light_on client refl

-- A message about a circuit that is known and one that is not.
abbrev push : Fields
push =
    field "objectList"
      (array (
        cons
          (object (
            field "objnam" (text "C0001")
              (field "params" (object (field "STATUS" (text "ON") end)) end)))
          (cons
            (object (
              field "objnam" (text "C0099")
                (field "params" (object (field "STATUS" (text "ON") end)) end)))
            nil)))
      end

abbrev engine : Engine ℕ
engine = record new_engine { kind = ("C0001", circuit) ∷ []; subs = [] ∷ [] }

handle_push_updates_example :
    handle_push push engine ≡ apply_updates ((circuit, "C0001", light_on) ∷ []) engine
unfolding lookup extract_push_objects
handle_push_updates_example = handle_push_updates push engine

abbrev spa : ObjectData
spa = record { obj_name = "B1202"; params = ("SNAME", "Spa") ∷ ("LOTMP", "100") ∷ [] }

abbrev other : ObjectData
other = record { obj_name = "B1101"; params = ("SNAME", "Pool") ∷ [] }

refresh_from_tells_example :
    get_elem? (refresh_from "B1202" (other ∷ spa ∷ []) engine).subs 0
    ≡ some ([] ++ body_change (body_from "B1202" (merged "B1202" spa.params engine)) ∷ [])
unfolding lookup lookup_or
refresh_from_tells_example =
    refresh_from_tells "B1202" (other ∷ []) [] spa engine 0 []
      (λ same. absurd (ne_of_test "B1101" "B1202" refl same), tt) refl (ne_of_test "Spa" "" refl)
      refl (omega arith)

-- Listen mode with a setting of one second and no address.
abbrev settings : CommandLineFlags
settings = record {
  intelli_center_ip = "";
  intelli_center_port = "6680";
  http_port = "8080";
  metrics = false;
  listen_mode = true;
  homebridge = false;
  poll_interval = pos 1;
  show_version = false;
  discover_only = false;
}

parse_command_line_flags-IsAskedFor_example :
    IsAskedFor settings (parse_command_line_flags settings)
parse_command_line_flags-IsAskedFor_example =
    parse_command_line_flags-IsAskedFor settings (omega arith)

listens_example : parse_command_line_flags settings ≡ run_listen_engine (config_of settings)
unfolding parse_command_line_flags
listens_example = refl

determine_poll_interval-wraps_example : determine_poll_interval (pos 10_000_000_000) false <ℤ pos 0
determine_poll_interval-wraps_example =
    determine_poll_interval-wraps (pos 10_000_000_000) false (omega arith) (omega arith)
