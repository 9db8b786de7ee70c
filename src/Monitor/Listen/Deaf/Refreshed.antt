-- ===== src/Monitor/Listen/Deaf/Refreshed.antt =====
-- Listen mode does not change what is exported: `refreshFromEngine` of metrics_engine.go sets the
-- gauges alike with and without it.
use pentameter.Prelude.{List, [], ◌∷◌, ◌≡◌, refl, ap, ◌∙◌}
use pentameter.Prelude.Map.{Map}
use pentameter.Prelude.Float.{Floats}
use pentameter.IntelliCenter.Types.{circuit, body, pump, heater, sensor, pmpcirc, ObjectData}
use pentameter.IntelliCenter.Engine.{Engine}
use pentameter.Monitor.State.{PoolMonitor, BodyHeaterInfo}
use pentameter.Monitor.Bodies.{
  process_body_object, process_bodies, process_heater_assignment, apply_body_temperatures,
  process_air_sensor, apply_air_temperature,
}
use pentameter.Monitor.Pumps.{
  process_pump_object, process_pumps, apply_pump_data, apply_pump_associations,
}
use pentameter.Monitor.Circuits.{
  process_circuit_object, process_circuits, cleanup, apply_freeze_protection, apply_circuit_status,
}
use pentameter.Monitor.Thermal.{process_heater_object, apply_thermal_status}
use pentameter.Monitor.Refresh.{raw_objects, of_kind, refresh_from, refresh_from_engine}
use pentameter.Monitor.Listen.Deaf.{
  deaf, Deaf, Deaf-then, process_body_object-Deaf, process_air_sensor-Deaf,
  process_pump_object-Deaf, process_circuit_object-Deaf, process_heater_object-Deaf,
}

module _ (F : Type 0) ⦃fl : Floats F⦄ where
  process_bodies-Deaf :
      (objs : List ObjectData) (refs : Map (BodyHeaterInfo F))
      → Deaf {F = F} (λ m. (process_bodies objs (m, refs)).0)
  unfolding Deaf process_bodies process_body_object
  process_bodies-Deaf [] refs m = refl
  process_bodies-Deaf (o ∷ objs) refs m =
      Deaf-then (λ n. (process_body_object o (n, refs)).0)
        (λ n. (process_bodies objs (n, process_heater_assignment o refs)).0)
        (process_body_object-Deaf F o refs)
        (process_bodies-Deaf objs (process_heater_assignment o refs)) m

  process_bodies-refs :
      (objs : List ObjectData) (refs : Map (BodyHeaterInfo F)) (m n : PoolMonitor F)
      → (process_bodies objs (m, refs)).1 ≡ (process_bodies objs (n, refs)).1
  unfolding process_bodies process_body_object
  process_bodies-refs [] refs m n = refl
  process_bodies-refs (o ∷ objs) refs m n =
      process_bodies-refs objs (process_heater_assignment o refs) _ _

  apply_body_temperatures-Deaf :
      (objs : List ObjectData) → Deaf {F = F} (apply_body_temperatures objs)
  unfolding Deaf apply_body_temperatures
  apply_body_temperatures-Deaf objs m =
      ap (λ (n : PoolMonitor F). record n { referenced_heaters = (process_bodies objs (m, [])).1 })
        (process_bodies-Deaf objs [] m)
      ∙ ap
          (λ (refs : Map (BodyHeaterInfo F)). record (deaf (process_bodies objs (deaf m, [])).0) {
            referenced_heaters = refs;
          })
          (process_bodies-refs objs [] m (deaf m))

  apply_air_temperature-Deaf : (objs : List ObjectData) → Deaf {F = F} (apply_air_temperature objs)
  unfolding Deaf apply_air_temperature
  apply_air_temperature-Deaf [] m = refl
  apply_air_temperature-Deaf (o ∷ objs) m =
      Deaf-then (process_air_sensor o) (apply_air_temperature objs) (process_air_sensor-Deaf F o)
        (apply_air_temperature-Deaf objs) m

  process_pumps-Deaf : (objs : List ObjectData) → Deaf {F = F} (process_pumps objs)
  unfolding Deaf process_pumps
  process_pumps-Deaf [] m = refl
  process_pumps-Deaf (o ∷ objs) m =
      Deaf-then (process_pump_object o) (process_pumps objs) (process_pump_object-Deaf F o)
        (process_pumps-Deaf objs) m

  process_circuits-Deaf : (objs : List ObjectData) → Deaf {F = F} (process_circuits objs)
  unfolding Deaf process_circuits
  process_circuits-Deaf [] m = refl
  process_circuits-Deaf (o ∷ objs) m =
      Deaf-then (process_circuit_object o) (process_circuits objs) (process_circuit_object-Deaf F o)
        (process_circuits-Deaf objs) m

  apply_thermal_status-Deaf : (objs : List ObjectData) → Deaf {F = F} (apply_thermal_status objs)
  unfolding Deaf apply_thermal_status
  apply_thermal_status-Deaf [] m = refl
  apply_thermal_status-Deaf (o ∷ objs) m =
      Deaf-then (process_heater_object o) (apply_thermal_status objs)
        (process_heater_object-Deaf F o) (apply_thermal_status-Deaf objs) m

  apply_pump_data-Deaf : (objs : List ObjectData) → Deaf {F = F} (apply_pump_data objs)
  unfolding Deaf apply_pump_data
  apply_pump_data-Deaf objs m = process_pumps-Deaf objs (record m { pump_running = [] })

  apply_circuit_status-Deaf : (objs : List ObjectData) → Deaf {F = F} (apply_circuit_status objs)
  unfolding Deaf apply_circuit_status cleanup
  apply_circuit_status-Deaf objs m =
      ap (cleanup m.active_circuit_keys m.active_feature_keys) (
        process_circuits-Deaf objs
          (record m { active_circuit_keys = []; active_feature_keys = [] }))

  -- A refresh sets every gauge, and all else that the monitor keeps of the equipment, to the same
  -- values whether it listens or not, whatever it has logged before.
  pub refresh_from_engine-Deaf :
      (e : Engine F) (m : PoolMonitor F)
      → deaf (refresh_from_engine e m) ≡ deaf (refresh_from_engine e (deaf m))
  unfolding refresh_from_engine refresh_from Deaf apply_pump_associations apply_freeze_protection
  refresh_from_engine-Deaf e m =
      let objs = raw_objects e in
      let circuits = of_kind circuit objs in
      let gate = λ (n : PoolMonitor F).
        apply_freeze_protection circuits (apply_pump_associations (of_kind pmpcirc objs) n) in
      let early = λ (n : PoolMonitor F). apply_pump_data (of_kind pump objs) (
        apply_air_temperature (of_kind sensor objs)
          (apply_body_temperatures (of_kind body objs) n)) in
      let late = λ (n : PoolMonitor F).
        apply_thermal_status (of_kind heater objs) (apply_circuit_status circuits (gate n)) in
      Deaf-then early late
        (Deaf-then _ (apply_pump_data (of_kind pump objs))
          (Deaf-then (apply_body_temperatures (of_kind body objs))
            (apply_air_temperature (of_kind sensor objs))
            (apply_body_temperatures-Deaf (of_kind body objs))
            (apply_air_temperature-Deaf (of_kind sensor objs)))
          (apply_pump_data-Deaf (of_kind pump objs)))
        (Deaf-then (λ n. apply_circuit_status circuits (gate n))
          (apply_thermal_status (of_kind heater objs))
          (λ n. apply_circuit_status-Deaf circuits (gate n))
          (apply_thermal_status-Deaf (of_kind heater objs)))
        (record m { feature_config = e.config })
