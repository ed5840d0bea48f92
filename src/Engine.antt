-- ===== src/Engine.antt =====
-- src/pretrade_risk/engine.py: the engine, by parts. `State` is the object and its construction,
-- `Derived` what is computed from it, `Counters` the methods that the caller feeds it by,
-- `Lifecycle` its traffic with the store, `Checks` the controls and `Sequence` the walk over them.
pub mod State
pub mod Derived
pub mod Messages
pub mod Checks
pub mod Sequence
pub mod Counters
pub mod Lifecycle
pub mod Session
pub mod Readings
