-- ===== src/Records.antt =====
-- What the records' service rests on: src/records.
pub mod Codec
pub mod Csv
pub mod Filter
pub mod Scope
mod Tests
