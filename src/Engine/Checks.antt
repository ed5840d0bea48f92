-- ===== src/Engine/Checks.antt =====
-- The 24 checks, by family, and what a check can do.
pub mod Outcome
pub mod Stops
pub mod Eligibility
pub mod Validation
pub mod Prices
pub mod Conduct
pub mod Exposure
