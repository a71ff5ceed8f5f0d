-- ===== src/Queue/Claiming.antt =====
-- What `claim` guarantees.
pub mod Limits
pub mod Taken
pub mod Order
