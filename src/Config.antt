-- ===== src/Config.antt =====
-- app/config.py: the configuration of the process.
pub mod Fields
pub mod Check
pub mod Environment
pub mod Valid
pub mod Ranges
pub mod Bounds
pub mod Tests
