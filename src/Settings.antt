-- ===== src/Settings.antt =====
-- app/services/settings.py: the settings that an administrator changes while the program runs.
pub mod Keys
pub mod Values
pub mod Service
pub mod Invariant
pub mod RoundTrip
pub mod Tests
