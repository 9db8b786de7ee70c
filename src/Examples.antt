-- ===== src/Examples.antt =====
-- Concrete runs of the model, and the theorems at concrete inputs.
pub mod Numbers
mod Texts
mod Controller
mod Rounds
mod Sessions
mod Sidecar
mod Search
mod Metrics
mod Shim
mod Writes
mod Network
mod Listening
