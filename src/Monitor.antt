-- ===== src/Monitor.antt =====
-- The pool monitor of main.go and metrics_engine.go: it interprets the engine's raw objects and sets
-- the Prometheus gauges. Of the log lines, those of listen mode are modelled.
pub mod Gauge
pub mod Watch
pub mod State
pub mod Bodies
pub mod Pumps
pub mod Status
pub mod Stale
pub mod Circuits
pub mod Thermal
pub mod Refresh
pub mod Listen
pub mod Exporter
pub mod Changes
pub mod Delivery
pub mod Links
pub mod Series
pub mod Order
pub mod Written
pub mod Exported
pub mod Features
