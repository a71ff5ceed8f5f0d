-- ===== src/Queue/Failing.antt =====
-- What `fail` guarantees.
pub mod Backoff
pub mod DeadLetters
