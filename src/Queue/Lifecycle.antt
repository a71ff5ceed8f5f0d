-- ===== src/Queue/Lifecycle.antt =====
-- The life of a message in the tables of SqliteQueueDriver.ts: what holds of every row after any
-- history of calls.
pub mod Row
pub mod Table
pub mod RowWise
pub mod Inserts
pub mod Holders
pub mod Returns
pub mod Reclaims
pub mod Claims
pub mod Queues
pub mod History
