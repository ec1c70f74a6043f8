-- ===== src/Live.antt =====
-- app/smtp/live_state.py: the ring of live SMTP events and its resumable cursor.
pub mod Ring
pub mod Numbering
pub mod Stream
pub mod Tests
