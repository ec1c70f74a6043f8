-- ===== src/Throttle.antt =====
-- The login throttle of app/auth/sessions.py.
pub mod Windows
pub mod Bounds
pub mod Recent
pub mod Runs
pub mod Tests
