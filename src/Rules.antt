-- ===== src/Rules.antt =====
-- The access rules: src/rules.
pub mod Values
pub mod Engine
pub mod Agreement
pub mod Soundness
pub mod Filters
mod Tests
