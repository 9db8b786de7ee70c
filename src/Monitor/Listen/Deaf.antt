-- ===== src/Monitor/Listen/Deaf.antt =====
-- The functions of main.go that process one object set the gauges alike in listen mode and without it.
pub mod Refreshed
use pentameter.Prelude.{
  String, Bool, false, Option, none, some, List, [], ◌∷◌, ◌==◌, ◌||◌, ◌≡◌, refl, sym, ap, ◌∙◌,
  if_agree,
}
use pentameter.Prelude.Int.{ℤ}
use pentameter.Prelude.Map.{Map, lookup, insert}
use pentameter.Prelude.Float.{Floats}
use pentameter.Prelude.Text.{has_prefix, atoi}
use pentameter.IntelliCenter.Types.{circuit, body, pump, heater, sensor, pmpcirc, ObjectData}
use pentameter.IntelliCenter.Parse.{param}
use pentameter.IntelliCenter.Engine.{Engine}
use pentameter.Monitor.Gauge.{Labels, set}
use pentameter.Monitor.Watch.{new_watch, track_thermal}
use pentameter.Monitor.State.{PoolMonitor, BodyHeaterInfo}
use pentameter.Monitor.Bodies.{
  process_body_temperature, process_body_heating_status, process_body_object, process_bodies,
  process_heater_assignment, apply_body_temperatures, process_air_sensor, apply_air_temperature,
}
use pentameter.Monitor.Pumps.{
  process_pump_object, process_pumps, apply_pump_data, apply_pump_associations,
  apply_pump_delivery_gate,
}
use pentameter.Monitor.Status.{
  calculate_circuit_status_value, get_heater_circuit_status, get_regular_circuit_status,
  commanded_status,
}
use pentameter.Monitor.Circuits.{
  visible, is_valid_circuit, process_visible_feature, process_feature_object, process_plain_circuit,
  process_circuit_object, process_circuits, cleanup, apply_freeze_protection, apply_circuit_status,
}
use pentameter.Monitor.Thermal.{
  heater_status, update_thermal_setpoints, process_heater_object, apply_thermal_status,
}
use pentameter.Monitor.Refresh.{raw_objects, of_kind, refresh_from, refresh_from_engine}

module _ {F : Type 0} where
  -- The monitor with nothing of what listen mode keeps.
  abbrev pub deaf : PoolMonitor F → PoolMonitor F
  deaf m = record m { watch = new_watch false }

  -- A step that does not depend on what listen mode keeps.
  unfoldable pub Deaf : (PoolMonitor F → PoolMonitor F) → Type 0
  Deaf f = (m : PoolMonitor F) → deaf (f m) ≡ deaf (f (deaf m))

  pub Deaf-then : (f g : PoolMonitor F → PoolMonitor F) → Deaf f → Deaf g → Deaf (λ m. g (f m))
  unfolding Deaf
  Deaf-then f g hf hg m = hg (f m) ∙ (ap (λ n. deaf (g n)) (hf m) ∙ sym (hg (f (deaf m))))

  update_thermal_setpoints-Deaf :
      (labels : Labels) (info : Option (BodyHeaterInfo F)) (status : ℤ) ⦃fl : Floats F⦄
      → Deaf (update_thermal_setpoints labels info status)
  unfolding Deaf update_thermal_setpoints
  update_thermal_setpoints-Deaf labels none status m = refl
  update_thermal_setpoints-Deaf labels (some info) status m = refl

module _ (F : Type 0) ⦃fl : Floats F⦄ where
  pub process_body_temperature-Deaf :
      (name temp_str subtype : String) (obj : ObjectData)
      → Deaf {F = F} (process_body_temperature name temp_str subtype obj)
  unfolding Deaf process_body_temperature
  process_body_temperature-Deaf name temp_str subtype obj m =
      if_agree deaf ((temp_str == "") || (name == "")) refl
        (if_agree deaf (fl.parse temp_str).1 refl refl)

  pub process_body_heating_status-Deaf :
      (name htmode_str : String) → Deaf {F = F} (process_body_heating_status name htmode_str)
  unfolding Deaf process_body_heating_status
  process_body_heating_status-Deaf name htmode_str m =
      if_agree deaf ((htmode_str == "") || (name == "")) refl
        (if_agree deaf (atoi htmode_str).1 refl refl)

  pub process_air_sensor-Deaf : (obj : ObjectData) → Deaf {F = F} (process_air_sensor obj)
  unfolding Deaf process_air_sensor
  process_air_sensor-Deaf obj m =
      let probe = param "PROBE" obj.params in
      if_agree deaf ((probe == "") || (param "SNAME" obj.params == "")) refl
        (if_agree deaf (fl.parse probe).1 refl refl)

  pub process_pump_object-Deaf : (obj : ObjectData) → Deaf {F = F} (process_pump_object obj)
  unfolding Deaf process_pump_object
  process_pump_object-Deaf obj m =
      let rpm = param "RPM" obj.params in
      if_agree deaf ((rpm == "") || (param "SNAME" obj.params == "")) refl
        (if_agree deaf (fl.parse rpm).1 refl refl)

  pub process_feature_object-Deaf :
      (obj : ObjectData) (name status subtype : String) (freeze : Bool)
      → Deaf {F = F} (process_feature_object obj name status subtype freeze)
  unfolding Deaf process_feature_object process_visible_feature get_regular_circuit_status
      apply_pump_delivery_gate commanded_status
  process_feature_object-Deaf obj name status subtype freeze m =
      if_agree deaf (visible (lookup obj.obj_name m.feature_config)) refl refl

  pub process_plain_circuit-Deaf :
      (obj : ObjectData) (name status subtype : String) (freeze : Bool)
      → Deaf {F = F} (process_plain_circuit obj name status subtype freeze)
  unfolding Deaf process_plain_circuit calculate_circuit_status_value get_heater_circuit_status
      get_regular_circuit_status apply_pump_delivery_gate commanded_status
  process_plain_circuit-Deaf obj name status subtype freeze m =
      if_agree deaf (is_valid_circuit obj.obj_name name subtype) refl refl

  pub process_circuit_object-Deaf : (obj : ObjectData) → Deaf {F = F} (process_circuit_object obj)
  unfolding Deaf process_circuit_object
  process_circuit_object-Deaf obj m =
      let name = param "SNAME" obj.params in
      let status = param "STATUS" obj.params in
      let subtype = param "SUBTYP" obj.params in
      let freeze = param "FREEZE" obj.params == "ON" in
      let named = record m { circuit_names = insert obj.obj_name name m.circuit_names } in
      if_agree deaf ((name == "") || (status == "")) refl (
        if_agree deaf (has_prefix obj.obj_name "FTR")
          (process_feature_object-Deaf obj name status subtype freeze named)
          (process_plain_circuit-Deaf obj name status subtype freeze named))

  pub process_heater_object-Deaf : (obj : ObjectData) → Deaf {F = F} (process_heater_object obj)
  unfolding Deaf process_heater_object heater_status
  process_heater_object-Deaf obj m =
      let name = param "SNAME" obj.params in
      let subtype = param "SUBTYP" obj.params in
      let labels = obj.obj_name ∷ name ∷ subtype ∷ [] in
      let info = lookup obj.obj_name m.referenced_heaters in
      let status = heater_status m info name (param "STATUS" obj.params) in
      if_agree deaf ((name == "") || (subtype == "")) refl (
        update_thermal_setpoints-Deaf labels info status (record m {
          thermal_status = set labels status m.thermal_status;
          watch = track_thermal name status obj m.watch;
        })
        ∙ sym (
            update_thermal_setpoints-Deaf labels info status (record (deaf m) {
              thermal_status = set labels status m.thermal_status;
              watch = track_thermal name status obj (deaf m).watch;
            })))

  pub process_body_object-Deaf :
      (obj : ObjectData) (refs : Map (BodyHeaterInfo F))
      → Deaf {F = F} (λ m. (process_body_object obj (m, refs)).0)
  unfolding process_body_object
  process_body_object-Deaf obj refs =
      let name = param "SNAME" obj.params in
      Deaf-then
        (process_body_temperature name (param "TEMP" obj.params) (param "SUBTYP" obj.params) obj)
        (process_body_heating_status name (param "HTMODE" obj.params))
        (process_body_temperature-Deaf name (param "TEMP" obj.params) (param "SUBTYP" obj.params)
          obj)
        (process_body_heating_status-Deaf name (param "HTMODE" obj.params))
