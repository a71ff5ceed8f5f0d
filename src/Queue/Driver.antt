-- ===== src/Queue/Driver.antt =====
-- src/queue/drivers/SqliteQueueDriver.ts: each method as a function from the database to its result
-- and the new database. `now` is the clock's reading during the call.
pub mod Conditions
pub mod Registry
pub mod Insert
pub mod Claim
pub mod Lease
pub mod Fail
pub mod Retry
pub mod Reclaim
pub mod Remove
pub mod Reads
