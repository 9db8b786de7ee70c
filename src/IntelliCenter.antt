-- ===== src/IntelliCenter.antt =====
-- The package intellicenter: the client of the pool controller and the engine that mirrors it.
pub mod Types
pub mod Parse
pub mod Interpret
pub mod Result
pub mod Json
pub mod Client
pub mod Query
pub mod Control
pub mod Written
pub mod Engine
