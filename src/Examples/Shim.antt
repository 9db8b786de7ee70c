-- ===== src/Examples/Shim.antt =====
-- The shim over an engine with one heated pool.
use pentameter.Prelude.{
  ℕ, String, Bool, true, false, some, none, List, [], ◌∷◌, ◌++◌, ◌≡◌, refl, inr, arith, get_elem?,
}
use pentameter.Prelude.Int.{pos}
use pentameter.Prelude.Map.{Map, keys, lookup, insert}
use pentameter.Prelude.Text.{fields}
use pentameter.Examples.Numbers.{tenths}
use pentameter.IntelliCenter.Types.{Body, Heater, circuit, body}
use pentameter.IntelliCenter.Engine.{Engine, Change, Snapshot, empty_snapshot, new_engine}
use pentameter.Homebridge.Convert.{c_to_f}
use pentameter.Homebridge.Items.{real_heaters_by_body}
use pentameter.Homebridge.Sorted.{IsAscending, occurrences}
use pentameter.Homebridge.Heaters.{first_of, lookup-real_heaters_by_body}
use pentameter.Homebridge.Publish.{Publisher}
use pentameter.Homebridge.Thermostat.{Command, heat_source_for, apply_thermostat}
use pentameter.IntelliCenter.Engine.Replay.{Update, apply_updates}
use pentameter.Homebridge.Forwarded.{
  or_else, has_dot, said, shown, switch_of, thermostat_of, forward_all, forward_all-tells,
}
use pentameter.Homebridge.Settle.{apply_thermostat-Settled}

abbrev pool : Body ℕ
pool = record {
  id = "B1101";
  name = "Pool";
  on = true;
  temp = 790;
  heat_mode = pos 1;
  heater_id = "H0001";
  lo_set_temp = 800;
  hi_set_temp = 1040;
}

abbrev heater : String → Bool → Heater
heater id real = record {
  id = id;
  name = "Gas";
  on = true;
  sub_type = "GENERIC";
  body = "B1202 B1101";
  cool = false;
  real = real;
}

-- The controller's pseudo heater comes first by its id.
abbrev heaters : Map Heater
heaters = ("H0001", heater "H0001" true) ∷ ("00001", heater "00001" false) ∷ []

abbrev equipment : Snapshot ℕ
equipment = record empty_snapshot { bodies = ("B1101", pool) ∷ []; heaters = heaters }

abbrev engine : Engine ℕ
engine = record new_engine { snap = equipment }

lookup-real_heaters_by_body_example :
    (ids : List String) × IsAscending ids
    × ((id : String) → occurrences id ids ≡ occurrences id (keys heaters))
    × (lookup "B1101" (real_heaters_by_body heaters) ≡ first_of "B1101" ids heaters)
lookup-real_heaters_by_body_example = lookup-real_heaters_by_body "B1101" heaters

-- The target comes back in half degrees Celsius, and the heater that the pool already has is asked
-- for.
abbrev echo : Command ℕ
echo = record {
  t = "tset";
  id = "B1101";
  on = false;
  heat_c = some 265;
  cool_c = none;
  mode = "on";
}

apply_thermostat-Settled_example : apply_thermostat echo engine none ≡ (engine, none)
unfolding lookup insert c_to_f tenths heat_source_for fields
apply_thermostat-Settled_example =
    apply_thermostat-Settled echo engine none pool refl refl tt (inr refl)

abbrev publisher : Publisher
publisher = record { published = true; last_sig = "" }

-- A circuit and a body of which the engine hears.
abbrev told_updates : List Update
told_updates =
    (circuit, "C0001", ("SNAME", "Spa") ∷ ("STATUS", "ON") ∷ [])
    ∷ (body, "B1101", ("SNAME", "Pool") ∷ ("TEMP", "79") ∷ [])
    ∷ []

abbrev watched : Engine ℕ
watched = record new_engine { subs = [] ∷ [] }

forward_all-tells_example :
    (cs : List (Change ℕ)) × (get_elem? (apply_updates told_updates watched).subs 0
      ≡ some ([] ++ cs))
    × (switch_of (lookup "C0001" (apply_updates told_updates watched).snap.circuits)
        ≡ or_else
            (said "C0001" (forward_all publisher cs))
            (switch_of (lookup "C0001" watched.snap.circuits)))
    × (thermostat_of (lookup "C0001" (apply_updates told_updates watched).snap.bodies)
        ≡ or_else
            (shown "C0001" (forward_all publisher cs))
            (thermostat_of (lookup "C0001" watched.snap.bodies)))
unfolding has_dot
forward_all-tells_example =
    forward_all-tells publisher refl told_updates watched 0 [] "C0001" refl (omega arith) refl
