-- ===== src/ParseQueue.antt =====
-- app/ingest/queue.py: the bounded queue of messages to parse.
pub mod Defs
pub mod Counting
pub mod Keeps
pub mod Steps
pub mod Reach
pub mod Removal
pub mod Tests
