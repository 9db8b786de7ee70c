-- ===== src/Homebridge.antt =====
-- The Homebridge sidecar of homebridge.go: the accessories that it announces, the messages that it
-- sends on changes, and the commands that it takes.
pub mod Convert
pub mod Items
pub mod Publish
pub mod Thermostat
pub mod Sorted
pub mod Heaters
pub mod Settle
pub mod Forwarded
pub mod Running
pub mod Commands
pub mod Metrics
pub mod Emitter
