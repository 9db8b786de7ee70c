-- ===== src/Examples/Sidecar.antt =====
-- The sidecar's commands and its metrics endpoint.
use pentameter.Prelude.{
  ℕ, String, Bool, true, false, Option, none, some, List, [], ◌∷◌, ◌==◌, ◌≡◌, refl, if◌then◌else◌,
}
use pentameter.Examples.Numbers.{tenths}
use pentameter.IntelliCenter.Engine.{Engine, new_engine}
use pentameter.Discovery.Interfaces.{ip4, ip_net, Interface}
use pentameter.Advertise.{MdnsAdvertiser}
use pentameter.Advertise.Start.{start_mdns_advertiser, IsStarted}
use pentameter.Prelude.Text.{parse_uint}
use pentameter.Homebridge.Thermostat.{Command}
use pentameter.Homebridge.Commands.{returns, hb_read_stdin}
use pentameter.Homebridge.Metrics.{start_hb_metrics, start_hb_metrics-IsStarted}

-- Lines that the shim sends, the last of them too late.
abbrev light_on : Command ℕ
light_on = record { t = "set"; id = "C0001"; on = true; heat_c = none; cool_c = none; mode = "" }

abbrev decode : String → Option (Command ℕ)
decode line = if line == "on" then some light_on else none

abbrev told : List (String × Bool)
told = ("", true) ∷ ("noise", true) ∷ ("on", true) ∷ ("on", false) ∷ []

read_example : hb_read_stdin decode false told ≡ (light_on ∷ [], returns)
unfolding hb_read_stdin
read_example = refl

-- The loopback, and an interface with an address.
abbrev interfaces : List Interface
interfaces =
    record { name = "lo"; up = true; multicast = true; loopback = true; addrs = some [] }
    ∷ record {
      name = "eth0";
      up = true;
      multicast = true;
      loopback = false;
      addrs = some (ip_net none ∷ ip_net (some (ip4 192 168 1 20)) ∷ []);
    }
    ∷ []

abbrev responder : MdnsAdvertiser
responder = record { ip = ip4 192 168 1 20; http_port = 8080; version = "1.0" }

abbrev no_equipment : Engine ℕ
no_equipment = new_engine

start_hb_metrics-IsStarted_example : (true ≡ true) × IsStarted interfaces "8080" responder
unfolding start_hb_metrics start_mdns_advertiser parse_uint
start_hb_metrics-IsStarted_example =
    start_hb_metrics-IsStarted "1.0" interfaces true true "8080" no_equipment responder refl
