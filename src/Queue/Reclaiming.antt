-- ===== src/Queue/Reclaiming.antt =====
-- `reclaimOrphaned`: what it leaves alone, and what it leaves behind.
pub mod Spares
pub mod Clears
