-- ===== src/Monitor/Listen/Lines/Steps.antt =====
-- Each step of `refreshFromEngine` adds to the log what it counts: the code is the functions of
-- main.go that process one object, and those named `apply…`.
use pentameter.Prelude.{
  String, Bool, Option, none, some, List, [], ◌∷◌, ◌==◌, ◌||◌, ◌≡◌, refl, subst, sym, if_elim,
}
use pentameter.Prelude.Int.{ℤ}
use pentameter.Prelude.Map.{Map, lookup, insert}
use pentameter.Prelude.Float.{Floats}
use pentameter.Prelude.Text.{has_prefix, atoi}
use pentameter.IntelliCenter.Types.{ObjectData}
use pentameter.IntelliCenter.Parse.{param}
use pentameter.Monitor.Gauge.{Labels}
use pentameter.Monitor.Watch.{track_thermal}
use pentameter.Monitor.State.{PoolMonitor, BodyHeaterInfo}
use pentameter.Monitor.Bodies.{
  process_body_temperature, process_body_heating_status, process_body_object, process_bodies,
  apply_body_temperatures, process_air_sensor,
}
use pentameter.Monitor.Pumps.{process_pump_object}
use pentameter.Monitor.Circuits.{
  visible, is_valid_circuit, process_visible_feature, process_feature_object, process_plain_circuit,
  process_circuit_object,
}
use pentameter.Monitor.Thermal.{heater_status, update_thermal_setpoints, process_heater_object}
use pentameter.Monitor.Listen.Lines.{Adds, Adds-refl, Adds-trans}
use pentameter.Monitor.Listen.Lines.Trackers.{
  track_water_temp-Adds, track_air_temp-Adds, track_pump_rpm-Adds, track_circuit-Adds,
  track_thermal-Adds, track_feature-Adds, note_parse_error-Adds, log_skipped_feature-Adds,
}

module _ {F : Type 0} ⦃fl : Floats F⦄ where
  -- The step from one monitor to another adds to the log what it counts.
  unfoldable pub Logs : PoolMonitor F → PoolMonitor F → Type 0
  Logs m n = Adds m.watch n.watch

  pub Logs-trans : (k m n : PoolMonitor F) → Logs k m → Logs m n → Logs k n
  unfolding Logs
  Logs-trans k m n = Adds-trans k.watch m.watch n.watch

  process_body_temperature-Logs :
      (name temp_str subtype : String) (obj : ObjectData) (m : PoolMonitor F)
      → Logs m (process_body_temperature name temp_str subtype obj m)
  unfolding process_body_temperature Logs
  process_body_temperature-Logs name temp_str subtype obj m =
      if_elim (Logs m) ((temp_str == "") || (name == "")) (Adds-refl m.watch) (
        if_elim (Logs m) (fl.parse temp_str).1
          (track_water_temp-Adds name (fl.parse temp_str).0 obj m.watch)
          (note_parse_error-Adds name m.watch))

  process_body_heating_status-Logs :
      (name htmode_str : String) (m : PoolMonitor F)
      → Logs m (process_body_heating_status name htmode_str m)
  unfolding process_body_heating_status Logs
  process_body_heating_status-Logs name htmode_str m =
      if_elim (Logs m) ((htmode_str == "") || (name == "")) (Adds-refl m.watch)
        (if_elim (Logs m) (atoi htmode_str).1 (Adds-refl m.watch) (Adds-refl m.watch))

  pub process_body_object-Logs :
      (obj : ObjectData) (m : PoolMonitor F) (refs : Map (BodyHeaterInfo F))
      → Logs m (process_body_object obj (m, refs)).0
  unfolding process_body_object
  process_body_object-Logs obj m refs =
      let name = param "SNAME" obj.params in
      let warm =
        process_body_temperature name (param "TEMP" obj.params) (param "SUBTYP" obj.params) obj m in
      Logs-trans m warm (process_body_heating_status name (param "HTMODE" obj.params) warm)
        (process_body_temperature-Logs name (param "TEMP" obj.params) (param "SUBTYP" obj.params)
          obj m)
        (process_body_heating_status-Logs name (param "HTMODE" obj.params) warm)

  process_bodies-Logs :
      (objs : List ObjectData) (m : PoolMonitor F) (refs : Map (BodyHeaterInfo F))
      → Logs m (process_bodies objs (m, refs)).0
  unfolding process_bodies Logs
  process_bodies-Logs [] m refs = Adds-refl m.watch
  process_bodies-Logs (o ∷ objs) m refs =
      let (n, more) = process_body_object o (m, refs) in
      Logs-trans m n (process_bodies objs (n, more)).0 (process_body_object-Logs o m refs)
        (process_bodies-Logs objs n more)

  pub apply_body_temperatures-Logs :
      (objs : List ObjectData) (m : PoolMonitor F) → Logs m (apply_body_temperatures objs m)
  unfolding apply_body_temperatures Logs
  apply_body_temperatures-Logs objs m = process_bodies-Logs objs m []

  pub process_air_sensor-Logs :
      (obj : ObjectData) (m : PoolMonitor F) → Logs m (process_air_sensor obj m)
  unfolding process_air_sensor Logs
  process_air_sensor-Logs obj m =
      let probe = param "PROBE" obj.params in
      if_elim (Logs m) ((probe == "") || (param "SNAME" obj.params == "")) (Adds-refl m.watch) (
        if_elim (Logs m) (fl.parse probe).1 (track_air_temp-Adds (fl.parse probe).0 obj m.watch)
          (Adds-refl m.watch))

  pub process_pump_object-Logs :
      (obj : ObjectData) (m : PoolMonitor F) → Logs m (process_pump_object obj m)
  unfolding process_pump_object Logs
  process_pump_object-Logs obj m =
      let name = param "SNAME" obj.params in
      let rpm = param "RPM" obj.params in
      if_elim (Logs m) ((rpm == "") || (name == "")) (Adds-refl m.watch) (
        if_elim (Logs m) (fl.parse rpm).1 (track_pump_rpm-Adds name (fl.parse rpm).0 obj m.watch)
          (Adds-refl m.watch))

  process_feature_object-Logs :
      (obj : ObjectData) (name status subtype : String) (freeze : Bool) (m : PoolMonitor F)
      → Logs m (process_feature_object obj name status subtype freeze m)
  unfolding process_feature_object process_visible_feature Logs
  process_feature_object-Logs obj name status subtype freeze m =
      if_elim (Logs m) (visible (lookup obj.obj_name m.feature_config))
        (track_feature-Adds name status m.watch)
        (log_skipped_feature-Adds name obj.obj_name m.watch)

  process_plain_circuit-Logs :
      (obj : ObjectData) (name status subtype : String) (freeze : Bool) (m : PoolMonitor F)
      → Logs m (process_plain_circuit obj name status subtype freeze m)
  unfolding process_plain_circuit Logs
  process_plain_circuit-Logs obj name status subtype freeze m =
      if_elim (Logs m) (is_valid_circuit obj.obj_name name subtype)
        (track_circuit-Adds name status obj m.watch) (Adds-refl m.watch)

  pub process_circuit_object-Logs :
      (obj : ObjectData) (m : PoolMonitor F) → Logs m (process_circuit_object obj m)
  unfolding process_circuit_object Logs
  process_circuit_object-Logs obj m =
      let name = param "SNAME" obj.params in
      let status = param "STATUS" obj.params in
      let subtype = param "SUBTYP" obj.params in
      let freeze = param "FREEZE" obj.params == "ON" in
      let named = record m { circuit_names = insert obj.obj_name name m.circuit_names } in
      if_elim (Logs m) ((name == "") || (status == "")) (Adds-refl m.watch) (
        if_elim (Logs m) (has_prefix obj.obj_name "FTR")
          (process_feature_object-Logs obj name status subtype freeze named)
          (process_plain_circuit-Logs obj name status subtype freeze named))

  update_thermal_setpoints-watch :
      (labels : Labels) (info : Option (BodyHeaterInfo F)) (status : ℤ) (m : PoolMonitor F)
      → (update_thermal_setpoints labels info status m).watch ≡ m.watch
  unfolding update_thermal_setpoints
  update_thermal_setpoints-watch labels none status m = refl
  update_thermal_setpoints-watch labels (some info) status m = refl

  pub process_heater_object-Logs :
      (obj : ObjectData) (m : PoolMonitor F) → Logs m (process_heater_object obj m)
  unfolding process_heater_object Logs
  process_heater_object-Logs obj m =
      let name = param "SNAME" obj.params in
      let subtype = param "SUBTYP" obj.params in
      let info = lookup obj.obj_name m.referenced_heaters in
      let status = heater_status m info name (param "STATUS" obj.params) in
      let w = track_thermal name status obj m.watch in
      if_elim (Logs m) ((name == "") || (subtype == "")) (Adds-refl m.watch) (
        subst (Adds m.watch) (sym (update_thermal_setpoints-watch _ info status _))
          (track_thermal-Adds name status obj m.watch))
