-- ===== src/Writer.antt =====
-- The admission machine of app/db/writer.py.
pub mod Admission
pub mod Actor
pub mod Steps
pub mod Counts
pub mod Ops
pub mod Submit
pub mod Shutdown
pub mod Reach
pub mod Escape
pub mod Service
pub mod Tests
