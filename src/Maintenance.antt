-- ===== src/Maintenance.antt =====
-- The gate that holds requests back during exclusive work: src/core/maintenance.
pub mod Gate
pub mod Opening
pub mod Exclusion
mod Tests
