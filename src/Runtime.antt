-- ===== src/Runtime.antt =====
-- app/runtime.py: the gate between maintenance and mail, and the limits on SMTP connections.
pub mod Gate
pub mod Exclusion
pub mod Connections
pub mod Tables
pub mod Limits
pub mod Tests
