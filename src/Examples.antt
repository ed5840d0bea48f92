-- ===== src/Examples.antt =====
-- Concrete inputs, tests by evaluation, and the theorems at those inputs.
mod Data
mod Decisions
mod Operator
mod Settings
mod Restart
mod Stores
mod Fresh
mod Sessions
mod Sqlite
mod Readings
mod Texts
mod Trading
