-- ===== src/Examples/Metrics.antt =====
-- A monitor with a pump that runs and one that is idle.
use pentameter.Prelude.{ℕ, String, true, false, some, none, List, [], ◌∷◌, ◌≡◌, ◌≢◌, refl}
use pentameter.Prelude.Int.{ℤ, pos}
use pentameter.Prelude.Map.{lookup, lookup_or}
use pentameter.Prelude.Text.{to_lower, ne_of_test}
use pentameter.Examples.Numbers.{tenths}
use pentameter.IntelliCenter.Types.{ObjectData, Body}
use pentameter.Monitor.Gauge.{Gauge, eq_labels, value}
use pentameter.Monitor.State.{PoolMonitor, new_pool_monitor}
use pentameter.Monitor.Pumps.{member, apply_pump_delivery_gate, apply_pump_associations}
use pentameter.Monitor.Status.{get_regular_circuit_status}
use pentameter.Monitor.Stale.{metric_key, has_bar, cleanup_stale_metrics}
use pentameter.Monitor.Thermal.{
  thermal_status_off, thermal_status_heating, calculate_heater_status_from_name,
}
use pentameter.Monitor.Delivery.{Delivers, get_regular_circuit_status-Delivers}
use pentameter.Monitor.Links.{apply_pump_associations-link}
use pentameter.Monitor.Series.{value-cleanup_stale_metrics, value-cleanup_bar}
use pentameter.Monitor.Circuits.{is_valid_circuit, apply_circuit_status}
use pentameter.Monitor.Written.{circuit_value}
use pentameter.Monitor.Exported.{apply_circuit_status-IsReported}
use pentameter.Monitor.Features.{feature_value, apply_circuit_status-IsShown}
use pentameter.Monitor.Order.{
  calculate_heater_status_from_name-order, calculate_heater_status_from_name-agree,
}

abbrev monitor : PoolMonitor ℕ
monitor = record (new_pool_monitor false) {
  freeze_protection_active = true;
  pump_running = ("PMP01", false) ∷ ("PMP02", true) ∷ [];
  circuit_to_pumps = ("C0001", "PMP01" ∷ "PMP02" ∷ []) ∷ ("C0002", "PMP01" ∷ []) ∷ [];
}

abbrev commanded : String
commanded = "ON"

get_regular_circuit_status-Delivers_example :
    (commanded ≡ "ON"
      → Delivers monitor "C0001"
      → get_regular_circuit_status monitor commanded "C0001" true ≡ pos 2)
    × (get_regular_circuit_status monitor commanded "C0001" true ≢ pos 0
        → (commanded ≡ "ON")
          × Delivers monitor "C0001"
          × (get_regular_circuit_status monitor commanded "C0001" true ≡ pos 2))
get_regular_circuit_status-Delivers_example =
    get_regular_circuit_status-Delivers monitor commanded "C0001" true

-- A circuit whose only pump is idle reads as off.
idle_example : get_regular_circuit_status monitor "ON" "C0002" true ≡ pos 0
unfolding get_regular_circuit_status apply_pump_delivery_gate lookup_or lookup
idle_example = refl

abbrev links : List ObjectData
links =
    record { obj_name = "p0101"; params = ("CIRCUIT", "C0001") ∷ ("PARENT", "PMP01") ∷ [] }
    ∷ record { obj_name = "p0102"; params = ("CIRCUIT", "C0002") ∷ ("PARENT", "PMP01") ∷ [] }
    ∷ []

named : ◌≢◌ {A = String} "C0002" ""
named = ne_of_test "C0002" "" refl

pumped : ◌≢◌ {A = String} "PMP01" ""
pumped = ne_of_test "PMP01" "" refl

apply_pump_associations-link_example :
    member "PMP01" (lookup_or [] "C0002" (apply_pump_associations links monitor).circuit_to_pumps)
    ≡ true
unfolding lookup_or lookup
apply_pump_associations-link_example =
    apply_pump_associations-link "C0002" "PMP01" named pumped links monitor

abbrev exported : Gauge ℤ
exported = ("C0001" ∷ "Spa" ∷ "SPA" ∷ [], pos 1) ∷ ("C0002" ∷ "A|B" ∷ "POOL" ∷ [], pos 1) ∷ []

value-cleanup_stale_metrics_example :
    value
      ("C0001" ∷ "Spa" ∷ "SPA" ∷ [])
      (cleanup_stale_metrics ((metric_key "C0001" "Spa" "SPA", true) ∷ []) [] exported)
    ≡ none
unfolding has_bar lookup_or lookup
value-cleanup_stale_metrics_example =
    value-cleanup_stale_metrics "C0001" "Spa" "SPA" ((metric_key "C0001" "Spa" "SPA", true) ∷ []) []
      exported refl refl

value-cleanup_bar_example :
    value
      ("C0002" ∷ "A|B" ∷ "POOL" ∷ [])
      (cleanup_stale_metrics ((metric_key "C0002" "A|B" "POOL", true) ∷ []) [] exported)
    ≡ some (pos 1)
unfolding has_bar value eq_labels
value-cleanup_bar_example =
    value-cleanup_bar "C0002" "A|B" "POOL" ((metric_key "C0002" "A|B" "POOL", true) ∷ []) []
      exported refl

abbrev pool : Body ℕ
pool = record {
  id = "B1101";
  name = "Pool";
  on = true;
  temp = 790;
  heat_mode = pos 0;
  heater_id = "H0001";
  lo_set_temp = 780;
  hi_set_temp = 840;
}

calculate_heater_status_from_name-order_example :
    (calculate_heater_status_from_name
        (("pool", true) ∷ ("spa", false) ∷ [])
        "Pool Spa Heater"
        "OFF"
      ≡ thermal_status_heating)
    × (calculate_heater_status_from_name
          (("spa", false) ∷ ("pool", true) ∷ [])
          "Pool Spa Heater"
          "OFF"
        ≡ thermal_status_off)
unfolding to_lower
calculate_heater_status_from_name-order_example =
    calculate_heater_status_from_name-order "Pool Spa Heater" "OFF" "pool" "spa" refl refl

calculate_heater_status_from_name-agree_example :
    calculate_heater_status_from_name (("pool", true) ∷ ("spa", false) ∷ []) "Pool Heater" "OFF"
    ≡ thermal_status_heating
unfolding to_lower
calculate_heater_status_from_name-agree_example =
    calculate_heater_status_from_name-agree (("pool", true) ∷ ("spa", false) ∷ []) "Pool Heater"
      "OFF" true (λ here. refl, (λ here. cc, tt))

-- The circuit of the spa, before a feature and another circuit.
abbrev spa_circuit : ObjectData
spa_circuit = record {
  obj_name = "C0001";
  params = ("SNAME", "Spa") ∷ ("STATUS", "ON") ∷ ("SUBTYP", "SPA") ∷ ("FREEZE", "ON") ∷ [];
}

abbrev fountain : ObjectData
fountain = record {
  obj_name = "FTR01";
  params = ("SNAME", "Fountain") ∷ ("STATUS", "ON") ∷ ("SUBTYP", "GENERIC") ∷ [];
}

apply_circuit_status-IsReported_example :
    value
      ("C0001" ∷ "Spa" ∷ "SPA" ∷ [])
      (apply_circuit_status (fountain ∷ spa_circuit ∷ fountain ∷ []) monitor).circuit_status
    ≡ some (circuit_value monitor spa_circuit)
unfolding lookup_or lookup is_valid_circuit
apply_circuit_status-IsReported_example =
    apply_circuit_status-IsReported spa_circuit (fountain ∷ [])
      (ne_of_test "Spa" "" refl, ne_of_test "ON" "" refl, refl, refl) (fountain ∷ []) monitor
      (ne_of_test "FTR01" "C0001" refl, tt)

abbrev configured : PoolMonitor ℕ
configured = record monitor { feature_config = ("FTR01", "w") ∷ ("FTR02", "") ∷ [] }

apply_circuit_status-IsShown_example :
    value
      ("FTR01" ∷ "Fountain" ∷ "GENERIC" ∷ [])
      (apply_circuit_status (spa_circuit ∷ fountain ∷ spa_circuit ∷ []) configured).feature_status
    ≡ some (feature_value configured fountain)
unfolding lookup_or lookup
apply_circuit_status-IsShown_example =
    apply_circuit_status-IsShown fountain (spa_circuit ∷ []) (spa_circuit ∷ []) configured
      (ne_of_test "Fountain" "" refl, ne_of_test "ON" "" refl, refl, refl)
      (ne_of_test "C0001" "FTR01" refl, tt)
