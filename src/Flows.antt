-- ===== src/Flows.antt =====
-- The flows subsystem: src/flows.
pub mod Pool
pub mod Paths
pub mod Payload
pub mod Types
pub mod Choices
pub mod Errors
pub mod Handlers
pub mod Retries
pub mod Runs
pub mod Engine
pub mod Recovery
pub mod Validator
mod Tests
