-- ===== src/Queue.antt =====
-- The queue subsystem: src/queue.
pub mod Types
pub mod Driver
pub mod Lifecycle
pub mod Lookup
pub mod Fencing
pub mod Claiming
pub mod Failing
pub mod Retention
pub mod Sending
pub mod Moves
pub mod Settings
pub mod Reclaiming
pub mod Service
mod Tests
