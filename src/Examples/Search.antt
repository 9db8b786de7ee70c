-- ===== src/Examples/Search.antt =====
-- The search of discovery.go over messages that are not packed, and the console.
use pentameter.Prelude.{◌+◌, String, Bool, true, false, Option, some, List, [], ◌∷◌, ◌≡◌, refl}
use pentameter.Prelude.Text.{to_lower}
use pentameter.Prelude.Map.{lookup_or, lookup}
use pentameter.Discovery.{Resource, found, process_response}
use pentameter.Discovery.Interfaces.{ip4, ip_net, Interface, get_best_multicast_interface}
use pentameter.Discovery.Rounds.{discovery_timeout}
use pentameter.Discovery.Search.{
  HostnameQuery, no_read, bytes_read, Pass, discover_intelli_center, search_result,
}
use pentameter.Discovery.Search.Found.{FoundAmong, discover_intelli_center-FoundAmong}
use pentameter.Monitor.Changes.{Console, log_all, under, transitions, log_all-transitions}

-- A printer answers before the controller.
abbrev answers : List Resource
answers =
    record { is_type_a = true; name = "printer.local."; address = some "192.168.1.9" }
    ∷ record { is_type_a = true; name = "Pentair.local."; address = some "192.168.1.20" }
    ∷ []

abbrev pack : HostnameQuery → Option (List Resource)
pack q = some []

abbrev unpack : List Resource → Option (List Resource)
unpack bytes = some bytes

abbrev ethernet : Interface
ethernet = record {
  name = "eth0";
  up = true;
  multicast = true;
  loopback = false;
  addrs = some (ip_net (some (ip4 192 168 1 20)) ∷ []);
}

-- Nothing is read at first; a second later there are the answers.
abbrev passes : List (Pass (List Resource))
passes =
    record { checked = 5; asked = 6; sent = 7; write_ok = true; read = no_read }
    ∷ record {
      checked = 1000000000;
      asked = 1000000001;
      sent = 1000000001;
      write_ok = true;
      read = bytes_read answers;
    }
    ∷ []

abbrev listens : Option Interface → Bool
listens o = true

discover_intelli_center-FoundAmong_example :
    (listens (get_best_multicast_interface (some (ethernet ∷ []))) ≡ true)
    × FoundAmong pack unpack (0 + discovery_timeout) "192.168.1.20" passes
unfolding search_result discover_intelli_center to_lower
discover_intelli_center-FoundAmong_example =
    discover_intelli_center-FoundAmong pack unpack true (some (ethernet ∷ [])) listens 0 passes
      "192.168.1.20" refl

-- The light goes on, stays on and goes off again, while the pump keeps its speed.
abbrev quiet : Console
quiet = record { listen_mode = false; last_logged = []; lines = [] }

abbrev calls : List (String × String)
calls =
    ("circuit:C0001", "on")
    ∷ ("pump:PMP01", "1800 RPM")
    ∷ ("circuit:C0001", "on")
    ∷ ("pump:PMP01", "1800 RPM")
    ∷ ("circuit:C0001", "off")
    ∷ []

log_all-transitions_example : under "circuit:C0001" (log_all calls quiet).lines ≡ "on" ∷ "off" ∷ []
unfolding under transitions lookup_or lookup
log_all-transitions_example = log_all-transitions "circuit:C0001" calls quiet refl

discovered_example : process_response (some answers) ≡ found "192.168.1.20"
unfolding process_response to_lower
discovered_example = refl
