-- ===== src/Monitor/Refresh.antt =====
-- `refreshFromEngine` of metrics_engine.go: the engine's raw objects, sorted by kind, go through the
-- monitor's steps in a fixed order.
use pentameter.Prelude.{String, Option, none, some, List, [], ◌∷◌, if◌then◌else◌, Bool, true, false}
use pentameter.Prelude.Map.{Map, lookup}
use pentameter.Prelude.Float.{Floats}
use pentameter.IntelliCenter.Types.{Kind, circuit, body, pump, heater, sensor, pmpcirc, ObjectData}
use pentameter.IntelliCenter.Engine.{Engine}
use pentameter.Monitor.State.{PoolMonitor}
use pentameter.Monitor.Bodies.{apply_body_temperatures, apply_air_temperature}
use pentameter.Monitor.Pumps.{apply_pump_data, apply_pump_associations}
use pentameter.Monitor.Circuits.{apply_freeze_protection, apply_circuit_status}
use pentameter.Monitor.Thermal.{apply_thermal_status}

pub record RawObject : Type 0 where
  pub obj_name : String
  -- the zero value of a kind, for an object without one, is of no group
  pub kind : Option Kind
  pub params : Map String

unfoldable pub raw_from : Map Kind → Map (Map String) → List RawObject
raw_from kinds [] = []
raw_from kinds ((id, p) ∷ params) =
    record { obj_name = id; kind = lookup id kinds; params = p } ∷ raw_from kinds params

-- `Engine.RawObjects`, in the order of the map of params.
unfoldable pub raw_objects : {F : Type 0} → Engine F → List RawObject
unfolding raw_from
raw_objects e = raw_from e.kind e.params

abbrev pub same_kind : Kind → Kind → Bool
same_kind circuit circuit = true
same_kind body body = true
same_kind pump pump = true
same_kind heater heater = true
same_kind sensor sensor = true
same_kind pmpcirc pmpcirc = true
same_kind _ _ = false

abbrev pub is_kind : Kind → Option Kind → Bool
is_kind k none = false
is_kind k (some j) = same_kind k j

-- The objects of a kind, as the `switch` of `refreshFromEngine` collects them.
unfoldable pub of_kind : Kind → List RawObject → List ObjectData
of_kind k [] = []
of_kind k (o ∷ objs) =
    let rest = of_kind k objs in
    if is_kind k o.kind then record { obj_name = o.obj_name; params = o.params } ∷ rest else rest

module _ {F : Type 0} ⦃fl : Floats F⦄ where
  -- The steps of `refreshFromEngine` on the sorted objects.
  unfoldable pub refresh_from : Map String → List RawObject → PoolMonitor F → PoolMonitor F
  refresh_from config objs m =
      let circuits = of_kind circuit objs in
      apply_thermal_status (of_kind heater objs) (
        apply_circuit_status circuits (
          apply_freeze_protection circuits (
            apply_pump_associations (of_kind pmpcirc objs) (
              apply_pump_data (of_kind pump objs) (
                apply_air_temperature (of_kind sensor objs) (
                  apply_body_temperatures (of_kind body objs)
                    (record m { feature_config = config })))))))

  unfoldable pub refresh_from_engine : Engine F → PoolMonitor F → PoolMonitor F
  unfolding refresh_from
  refresh_from_engine e = refresh_from e.config (raw_objects e)
