-- ===== src/Monitor/Listen/Lines/Refresh.antt =====
-- A whole refresh adds to the log what it counts: `refreshFromEngine` of metrics_engine.go.
use pentameter.Prelude.{String, List, [], ◌∷◌}
use pentameter.Prelude.Map.{Map}
use pentameter.Prelude.Float.{Floats}
use pentameter.IntelliCenter.Types.{circuit, body, pump, heater, sensor, pmpcirc, ObjectData}
use pentameter.IntelliCenter.Engine.{Engine}
use pentameter.Monitor.State.{PoolMonitor}
use pentameter.Monitor.Bodies.{apply_body_temperatures, process_air_sensor, apply_air_temperature}
use pentameter.Monitor.Pumps.{
  process_pump_object, process_pumps, apply_pump_data, apply_pump_associations,
}
use pentameter.Monitor.Circuits.{
  process_circuit_object, process_circuits, cleanup, apply_freeze_protection, apply_circuit_status,
}
use pentameter.Monitor.Thermal.{process_heater_object, apply_thermal_status}
use pentameter.Monitor.Refresh.{RawObject, raw_objects, of_kind, refresh_from, refresh_from_engine}
use pentameter.Monitor.Listen.Lines.{Adds-refl}
use pentameter.Monitor.Listen.Lines.Steps.{
  Logs, Logs-trans, apply_body_temperatures-Logs, process_air_sensor-Logs, process_pump_object-Logs,
  process_circuit_object-Logs, process_heater_object-Logs,
}

module _ {F : Type 0} ⦃fl : Floats F⦄ where
  apply_air_temperature-Logs :
      (objs : List ObjectData) (m : PoolMonitor F) → Logs m (apply_air_temperature objs m)
  unfolding apply_air_temperature Logs
  apply_air_temperature-Logs [] m = Adds-refl m.watch
  apply_air_temperature-Logs (o ∷ objs) m =
      let n = process_air_sensor o m in
      Logs-trans m n (apply_air_temperature objs n) (process_air_sensor-Logs o m)
        (apply_air_temperature-Logs objs n)

  process_pumps-Logs : (objs : List ObjectData) (m : PoolMonitor F) → Logs m (process_pumps objs m)
  unfolding process_pumps Logs
  process_pumps-Logs [] m = Adds-refl m.watch
  process_pumps-Logs (o ∷ objs) m =
      let n = process_pump_object o m in
      Logs-trans m n (process_pumps objs n) (process_pump_object-Logs o m)
        (process_pumps-Logs objs n)

  process_circuits-Logs :
      (objs : List ObjectData) (m : PoolMonitor F) → Logs m (process_circuits objs m)
  unfolding process_circuits Logs
  process_circuits-Logs [] m = Adds-refl m.watch
  process_circuits-Logs (o ∷ objs) m =
      let n = process_circuit_object o m in
      Logs-trans m n (process_circuits objs n) (process_circuit_object-Logs o m)
        (process_circuits-Logs objs n)

  apply_thermal_status-Logs :
      (objs : List ObjectData) (m : PoolMonitor F) → Logs m (apply_thermal_status objs m)
  unfolding apply_thermal_status Logs
  apply_thermal_status-Logs [] m = Adds-refl m.watch
  apply_thermal_status-Logs (o ∷ objs) m =
      let n = process_heater_object o m in
      Logs-trans m n (apply_thermal_status objs n) (process_heater_object-Logs o m)
        (apply_thermal_status-Logs objs n)

  apply_pump_data-Logs :
      (objs : List ObjectData) (m : PoolMonitor F) → Logs m (apply_pump_data objs m)
  unfolding apply_pump_data Logs
  apply_pump_data-Logs objs m = process_pumps-Logs objs (record m { pump_running = [] })

  apply_circuit_status-Logs :
      (objs : List ObjectData) (m : PoolMonitor F) → Logs m (apply_circuit_status objs m)
  unfolding apply_circuit_status cleanup Logs
  apply_circuit_status-Logs objs m =
      process_circuits-Logs objs (record m { active_circuit_keys = []; active_feature_keys = [] })

  refresh_from-Logs :
      (config : Map String) (objs : List RawObject) (m : PoolMonitor F)
      → Logs m (refresh_from config objs m)
  unfolding refresh_from apply_pump_associations apply_freeze_protection Logs
  refresh_from-Logs config objs m =
      let configured = record m { feature_config = config } in
      let warm = apply_body_temperatures (of_kind body objs) configured in
      let airy = apply_air_temperature (of_kind sensor objs) warm in
      let pumped = apply_pump_data (of_kind pump objs) airy in
      let gated =
        apply_freeze_protection (of_kind circuit objs)
          (apply_pump_associations (of_kind pmpcirc objs) pumped) in
      let circled = apply_circuit_status (of_kind circuit objs) gated in
      let done = apply_thermal_status (of_kind heater objs) circled in
      Logs-trans m warm done (apply_body_temperatures-Logs (of_kind body objs) configured) (
        Logs-trans warm airy done (apply_air_temperature-Logs (of_kind sensor objs) warm) (
          Logs-trans airy pumped done (apply_pump_data-Logs (of_kind pump objs) airy) (
            Logs-trans pumped circled done (apply_circuit_status-Logs (of_kind circuit objs) gated)
              (apply_thermal_status-Logs (of_kind heater objs) circled))))

  pub refresh_from_engine-Logs :
      (e : Engine F) (m : PoolMonitor F) → Logs m (refresh_from_engine e m)
  unfolding refresh_from_engine
  refresh_from_engine-Logs e m = refresh_from-Logs e.config (raw_objects e) m
