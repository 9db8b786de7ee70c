-- ===== src/Monitor/Bodies.antt =====
-- The bodies and the air sensor: `applyBodyTemperatures`, `processBodyObject` and what it calls, and
-- `applyAirTemperature` of main.go.
use pentameter.Prelude.{String, List, [], ◌∷◌, ◌==◌, ◌||◌, if◌then◌else◌}
use pentameter.Prelude.Int.{pos, leb_ℤ}
use pentameter.Prelude.Map.{Map, insert, lookup_or}
use pentameter.Prelude.Float.{Floats}
use pentameter.Prelude.Text.{to_lower, atoi}
use pentameter.IntelliCenter.Types.{ObjectData}
use pentameter.IntelliCenter.Parse.{param}
use pentameter.Monitor.Gauge.{set}
use pentameter.Monitor.Watch.{track_water_temp, track_air_temp}
use pentameter.Monitor.Watch.Notices.{note_parse_error}
use pentameter.Monitor.State.{PoolMonitor, BodyHeaterInfo}

module _ {F : Type 0} ⦃fl : Floats F⦄ where
  unfoldable pub process_body_temperature :
      String → String → String → ObjectData → PoolMonitor F → PoolMonitor F
  process_body_temperature name temp_str subtype obj m =
      let (temp, parsed) = fl.parse temp_str in
      if (temp_str == "") || (name == "")
      then m
      else if parsed
      then record m {
        pool_temperature = set (subtype ∷ name ∷ []) temp m.pool_temperature;
        watch = track_water_temp name temp obj m.watch;
      }
      else record m { watch = note_parse_error name m.watch }

  unfoldable pub process_body_heating_status : String → String → PoolMonitor F → PoolMonitor F
  process_body_heating_status name htmode_str m =
      let (htmode, parsed) = atoi htmode_str in
      if (htmode_str == "") || (name == "")
      then m
      else if parsed
      then record m {
        body_heating_status = insert (to_lower name) (leb_ℤ (pos 1) htmode) m.body_heating_status;
      }
      else m

  -- The numbers of an assigned heater are taken without their errors.
  unfoldable pub process_heater_assignment :
      ObjectData → Map (BodyHeaterInfo F) → Map (BodyHeaterInfo F)
  unfolding lookup_or
  process_heater_assignment obj refs =
      let name = param "SNAME" obj.params in
      let htsrc = param "HTSRC" obj.params in
      let info : BodyHeaterInfo F = record {
        body_name = name;
        body_obj = obj.obj_name;
        heater_obj = htsrc;
        ht_mode = (atoi (param "HTMODE" obj.params)).0;
        temp = (fl.parse (param "TEMP" obj.params)).0;
        lo_temp = (fl.parse (param "LOTMP" obj.params)).0;
        hi_temp = (fl.parse (param "HITMP" obj.params)).0;
      } in
      if (htsrc == "") || ((htsrc == "00000") || (name == "")) then refs else insert htsrc info refs

  -- `processBodyObject`
  unfoldable pub process_body_object :
      ObjectData → PoolMonitor F × Map (BodyHeaterInfo F) → PoolMonitor F × Map (BodyHeaterInfo F)
  unfolding process_body_temperature process_body_heating_status process_heater_assignment lookup_or
  process_body_object obj (m, refs) =
      let name = param "SNAME" obj.params in
      (
        process_body_heating_status name (param "HTMODE" obj.params) (
            process_body_temperature name (param "TEMP" obj.params) (param "SUBTYP" obj.params) obj
              m),
        process_heater_assignment obj refs,
      )

  unfoldable pub process_bodies :
      List ObjectData
      → PoolMonitor F × Map (BodyHeaterInfo F)
      → PoolMonitor F × Map (BodyHeaterInfo F)
  unfolding process_body_object
  process_bodies [] s = s
  process_bodies (o ∷ objs) s = process_bodies objs (process_body_object o s)

  -- `applyBodyTemperatures`
  unfoldable pub apply_body_temperatures : List ObjectData → PoolMonitor F → PoolMonitor F
  unfolding process_bodies
  apply_body_temperatures objs m =
      let (m', refs) = process_bodies objs (m, []) in record m' { referenced_heaters = refs }

  unfoldable pub process_air_sensor : ObjectData → PoolMonitor F → PoolMonitor F
  unfolding lookup_or
  process_air_sensor obj m =
      let name = param "SNAME" obj.params in
      let temp_str = param "PROBE" obj.params in
      let (temp, parsed) = fl.parse temp_str in
      if (temp_str == "") || (name == "")
      then m
      else if parsed
      then record m {
        air_temperature = set (param "SUBTYP" obj.params ∷ name ∷ []) temp m.air_temperature;
        watch = track_air_temp temp obj m.watch;
      }
      else m

  -- `applyAirTemperature`
  unfoldable pub apply_air_temperature : List ObjectData → PoolMonitor F → PoolMonitor F
  unfolding process_air_sensor
  apply_air_temperature [] m = m
  apply_air_temperature (o ∷ objs) m = apply_air_temperature objs (process_air_sensor o m)
