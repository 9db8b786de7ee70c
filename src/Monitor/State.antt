-- ===== src/Monitor/State.antt =====
-- `PoolMonitor` and `BodyHeaterInfo` of main.go, with the gauges that the monitor sets.
use pentameter.Prelude.{String, Bool, false, List, []}
use pentameter.Prelude.Int.{ℤ}
use pentameter.Prelude.Map.{Map}
use pentameter.Monitor.Gauge.{Gauge}
use pentameter.Monitor.Watch.{Watch, new_watch}

pub record BodyHeaterInfo (F : Type 0) : Type 0 where
  pub body_name : String
  pub body_obj : String
  pub heater_obj : String
  pub ht_mode : ℤ
  pub temp : F
  pub lo_temp : F
  pub hi_temp : F

pub record PoolMonitor (F : Type 0) : Type 0 where
  pub body_heating_status : Map Bool
  pub referenced_heaters : Map (BodyHeaterInfo F)
  pub feature_config : Map String
  pub circuit_names : Map String
  pub active_circuit_keys : Map Bool
  pub active_feature_keys : Map Bool
  pub freeze_protection_active : Bool
  pub pump_running : Map Bool
  pub circuit_to_pumps : Map (List String)
  -- the fields that listen mode uses
  pub watch : Watch F
  -- the gauges
  pub pool_temperature : Gauge F
  pub air_temperature : Gauge F
  pub pump_rpm : Gauge F
  pub circuit_status : Gauge ℤ
  pub feature_status : Gauge ℤ
  pub thermal_status : Gauge ℤ
  pub thermal_low_setpoint : Gauge F
  pub thermal_high_setpoint : Gauge F

-- `NewPoolMonitor`, in listen mode or not, with no series set.
abbrev pub new_pool_monitor : {F : Type 0} → Bool → PoolMonitor F
new_pool_monitor listen = record {
  watch = new_watch listen;
  body_heating_status = [];
  referenced_heaters = [];
  feature_config = [];
  circuit_names = [];
  active_circuit_keys = [];
  active_feature_keys = [];
  freeze_protection_active = false;
  pump_running = [];
  circuit_to_pumps = [];
  pool_temperature = [];
  air_temperature = [];
  pump_rpm = [];
  circuit_status = [];
  feature_status = [];
  thermal_status = [];
  thermal_low_setpoint = [];
  thermal_high_setpoint = [];
}
