-- ===== src/Windows.antt =====
-- src/pretrade_risk/windows.py: the two trailing windows behind the rate and duplicate controls.
pub mod Rate
pub mod Duplicate
