-- ===== src/Pool.antt =====
-- app/db/read_pool.py: the bounded pool of read connections.
pub mod State
pub mod Actor
pub mod Sums
pub mod Queues
pub mod Steps
pub mod Admit
pub mod Slots
pub mod Enter
pub mod Dispatch
pub mod Lifecycle
pub mod Workers
pub mod Exit
pub mod Take
pub mod Controls
pub mod Failure
pub mod Reach
pub mod Request
pub mod Reopen
pub mod Resolve
pub mod Interrupted
pub mod Tests
