-- ===== src/Queue/Tests.antt =====
-- The driver on concrete databases.
mod Stored
mod Claims
mod Holders
mod Upkeep
mod Life
