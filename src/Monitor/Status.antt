-- ===== src/Monitor/Status.antt =====
-- The status value of a circuit or feature: `getRegularCircuitStatus`, `getHeaterCircuitStatus`,
-- `getBodyNameFromCircuit`, `calculateCircuitStatusValue` and the value of `processVisibleFeature`.
use pentameter.Prelude.{String, Bool, false, ◌==◌, ◌&&◌, not, if◌then◌else◌}
use pentameter.Prelude.Int.{ℤ}
use pentameter.Prelude.Map.{lookup_or}
use pentameter.Prelude.Text.{to_lower, contains}
use pentameter.Monitor.State.{PoolMonitor}
use pentameter.Monitor.Pumps.{
  circuit_status_off, circuit_status_on, circuit_status_freeze_protected, apply_pump_delivery_gate,
}

abbrev pub body_name_spa : String
body_name_spa = "spa"

abbrev pub body_name_pool : String
body_name_pool = "pool"

unfoldable pub get_body_name_from_circuit : String → String
get_body_name_from_circuit name =
    let lower_name = to_lower name in
    if contains lower_name body_name_spa
    then body_name_spa
    else if contains lower_name body_name_pool
    then body_name_pool
    else ""

module _ {F : Type 0} where
  -- The status of what is commanded on, before the pumps are looked at.
  unfoldable pub commanded_status : PoolMonitor F → Bool → Bool → ℤ
  commanded_status m on freeze_enabled =
      if on
      then (if m.freeze_protection_active && freeze_enabled
          then circuit_status_freeze_protected
          else circuit_status_on)
      else circuit_status_off

  -- `getRegularCircuitStatus`
  unfoldable pub get_regular_circuit_status : PoolMonitor F → String → String → Bool → ℤ
  unfolding commanded_status
  get_regular_circuit_status m status obj_name freeze_enabled =
      apply_pump_delivery_gate m obj_name (commanded_status m (status == "ON") freeze_enabled)

  -- `getHeaterCircuitStatus`
  unfoldable pub get_heater_circuit_status : PoolMonitor F → String → String → Bool → ℤ
  unfolding commanded_status
  get_heater_circuit_status m name obj_name freeze_enabled =
      let body_name = get_body_name_from_circuit name in
      apply_pump_delivery_gate m obj_name (
        commanded_status m
          (not (body_name == "") && lookup_or false body_name m.body_heating_status) freeze_enabled)

  -- `calculateCircuitStatusValue`
  unfoldable pub calculate_circuit_status_value :
      PoolMonitor F → String → String → String → Bool → ℤ
  calculate_circuit_status_value m name status obj_name freeze_enabled =
      if contains (to_lower name) "heat"
      then get_heater_circuit_status m name obj_name freeze_enabled
      else get_regular_circuit_status m status obj_name freeze_enabled
