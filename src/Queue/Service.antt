-- ===== src/Queue/Service.antt =====
-- The service over the driver: src/queue/QueueService.ts.
pub mod Wakes
pub mod Awake
pub mod Owed
pub mod Promise
pub mod Calls
pub mod Drains
pub mod Start
pub mod Workers
pub mod Forwards
pub mod Requests
pub mod Asked
pub mod Stored
pub mod Served
pub mod Worked
pub mod Started
pub mod Refined
pub mod Waking
mod Tests
pub mod Settling
