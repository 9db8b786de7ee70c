-- ===== src/Monitor/Exporter.antt =====
-- When the gauges are recomputed: `runMetricsEngine` of metrics_engine.go, and `hbMetrics` of
-- homebridge.go, which does the same. A callback of the engine and a change from its subscription are
-- events; each finds the engine as it then is.
pub mod Follows
pub mod Running
use pentameter.Prelude.{ℕ, Bool, true, false, Option, none, some, List, [], ◌∷◌, if◌then◌else◌}
use pentameter.Prelude.Float.{Floats}
use pentameter.IntelliCenter.Engine.{Engine}
use pentameter.Monitor.State.{PoolMonitor, new_pool_monitor}
use pentameter.Monitor.Refresh.{refresh_from_engine}

pub record Exporter (F : Type 0) : Type 0 where
  pub pm : PoolMonitor F
  pub ready : Bool
  -- the gauges of the connection and of the last refresh, once they are set
  pub connection_failure : Option Bool
  pub last_refresh_timestamp : Option ℕ

abbrev pub new_exporter : {F : Type 0} → Exporter F
new_exporter = record {
  pm = new_pool_monitor false;
  ready = false;
  connection_failure = none;
  last_refresh_timestamp = none;
}

-- The engine calls OnScan with an error, or without one at a reading of the clock; or it offers a
-- change.
pub data Event (F : Type 0) : Type 0 where
  scan_failed : Event F
  scanned : Engine F → ℕ → Event F
  changed : Engine F → Event F

module _ {F : Type 0} ⦃fl : Floats F⦄ where
  -- `recompute`
  unfoldable pub recompute : Engine F → Exporter F → Exporter F
  recompute e x = record x { pm = refresh_from_engine e x.pm }

  -- `OnScan`, with the clock that `updateRefreshTimestamp` reads
  unfoldable pub on_scan_failed : Exporter F → Exporter F
  on_scan_failed x = record x { connection_failure = some true }

  unfoldable pub on_scan : Engine F → ℕ → Exporter F → Exporter F
  unfolding recompute
  on_scan e now x =
      record (recompute e (record x { connection_failure = some false; ready = true })) {
        last_refresh_timestamp = some now;
      }

  -- The body of the loop over the changes.
  unfoldable pub on_change : Engine F → Exporter F → Exporter F
  unfolding recompute
  on_change e x = if x.ready then recompute e x else x

  unfoldable pub handle : Event F → Exporter F → Exporter F
  unfolding on_scan_failed on_scan on_change
  handle scan_failed x = on_scan_failed x
  handle (scanned e now) x = on_scan e now x
  handle (changed e) x = on_change e x

  unfoldable pub export : List (Event F) → Exporter F → Exporter F
  unfolding handle
  export [] x = x
  export (v ∷ events) x = export events (handle v x)
