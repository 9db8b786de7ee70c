-- ===== src/Monitor/Thermal.antt =====
-- The heaters: `calculateHeaterStatus`, `calculateHeaterStatusFromName`, `processHeaterObject` and
-- `updateThermalSetpoints` of main.go.
use pentameter.Prelude.{
  String, Bool, Option, none, some, List, [], ◌∷◌, ◌==◌, ◌&&◌, ◌||◌, if◌then◌else◌, ◌≡◌, arith,
}
use pentameter.Prelude.Int.{ℤ, pos, eqb_ℤ}
use pentameter.Prelude.Map.{Map, lookup, lookup_or}
use pentameter.Prelude.Float.{Floats}
use pentameter.Prelude.Text.{to_lower, contains}
use pentameter.IntelliCenter.Types.{ObjectData, Body}
use pentameter.IntelliCenter.Parse.{param}
use pentameter.IntelliCenter.Interpret.{heat_status}
use pentameter.Monitor.Gauge.{Labels, set, delete}
use pentameter.Monitor.Watch.{track_thermal}
use pentameter.Monitor.State.{PoolMonitor, BodyHeaterInfo}

abbrev pub thermal_status_off : ℤ
thermal_status_off = pos 0

abbrev pub thermal_status_heating : ℤ
thermal_status_heating = pos 1

abbrev pub thermal_status_idle : ℤ
thermal_status_idle = pos 2

abbrev pub thermal_status_cooling : ℤ
thermal_status_cooling = pos 3

-- The loop of `calculateHeaterStatusFromName` over the bodies, in the order of the map: the first
-- body whose name contains the heater's, or is contained in it, decides.
unfoldable pub status_from_bodies : String → Map Bool → Option ℤ
status_from_bodies heater [] = none
status_from_bodies heater ((body, heating) ∷ bodies) =
    let rest = status_from_bodies heater bodies in
    if contains heater body || contains body heater
    then some (if heating then thermal_status_heating else thermal_status_off)
    else rest

unfoldable pub calculate_heater_status_from_name : Map Bool → String → String → ℤ
unfolding status_from_bodies
calculate_heater_status_from_name bodies heater_name status =
    elim (status_from_bodies (to_lower heater_name) bodies) [
      | some s ↦ s
      | none ↦ if status == "ON" then thermal_status_heating else thermal_status_off
    ]

module _ {F : Type 0} ⦃fl : Floats F⦄ where
  -- `calculateHeaterStatus`
  unfoldable pub calculate_heater_status : BodyHeaterInfo F → ℤ
  calculate_heater_status b =
      if eqb_ℤ b.ht_mode (pos 0)
      then (if fl.le b.lo_temp b.temp && fl.le b.temp b.hi_temp
          then thermal_status_idle
          else thermal_status_off)
      else if eqb_ℤ b.ht_mode (pos 1)
      then thermal_status_heating
      else if eqb_ℤ b.ht_mode (pos 4)
      then thermal_status_heating
      else if eqb_ℤ b.ht_mode (pos 9)
      then thermal_status_cooling
      else thermal_status_off

  -- `updateThermalSetpoints`, for a heater that no body refers to and for one of a body.
  unfoldable pub update_thermal_setpoints :
      Labels → Option (BodyHeaterInfo F) → ℤ → PoolMonitor F → PoolMonitor F
  update_thermal_setpoints labels none status m = record m {
    thermal_low_setpoint = delete labels m.thermal_low_setpoint;
    thermal_high_setpoint = delete labels m.thermal_high_setpoint;
  }
  update_thermal_setpoints labels (some body) status m = record m {
    thermal_low_setpoint = set labels body.lo_temp m.thermal_low_setpoint;
    thermal_high_setpoint =
        if fl.lt body.hi_temp (fl.of_int (pos 100))
          && (eqb_ℤ status (pos 3) || eqb_ℤ status (pos 2))
        then set labels body.hi_temp m.thermal_high_setpoint
        else delete labels m.thermal_high_setpoint;
  }

  -- The status of `processHeaterObject`: from its body, or from the names.
  unfoldable pub heater_status : PoolMonitor F → Option (BodyHeaterInfo F) → String → String → ℤ
  unfolding calculate_heater_status calculate_heater_status_from_name
  heater_status m (some body) name status = calculate_heater_status body
  heater_status m none name status =
      calculate_heater_status_from_name m.body_heating_status name status

  -- `processHeaterObject`
  unfoldable pub process_heater_object : ObjectData → PoolMonitor F → PoolMonitor F
  unfolding heater_status update_thermal_setpoints lookup_or
  process_heater_object obj m =
      let name = param "SNAME" obj.params in
      let subtype = param "SUBTYP" obj.params in
      let body = lookup obj.obj_name m.referenced_heaters in
      let status = heater_status m body name (param "STATUS" obj.params) in
      let labels = obj.obj_name ∷ name ∷ subtype ∷ [] in
      if (name == "") || (subtype == "")
      then m
      else update_thermal_setpoints labels body status (record m {
        thermal_status = set labels status m.thermal_status;
        watch = track_thermal name status obj m.watch;
      })

  -- `applyThermalStatus`
  unfoldable pub apply_thermal_status : List ObjectData → PoolMonitor F → PoolMonitor F
  unfolding process_heater_object
  apply_thermal_status [] m = m
  apply_thermal_status (o ∷ objs) m = apply_thermal_status objs (process_heater_object o m)

  -- The engine's body as the monitor keeps it for a heater.
  abbrev pub info_of : Body F → BodyHeaterInfo F
  info_of b = record {
    body_name = b.name;
    body_obj = b.id;
    heater_obj = b.heater_id;
    ht_mode = b.heat_mode;
    temp = b.temp;
    lo_temp = b.lo_set_temp;
    hi_temp = b.hi_set_temp;
  }

  -- The package's `Body.HeatStatus` and the monitor's `calculateHeaterStatus` are the same function
  -- of a body's mode and temperatures.
  pub heat_status-calculate_heater_status :
      (b : Body F) → heat_status b ≡ calculate_heater_status (info_of b)
  unfolding heat_status calculate_heater_status
  heat_status-calculate_heater_status b = ground arith
