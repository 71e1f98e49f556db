-- ===== src/Sdk.antt =====
-- The TypeScript SDK, examples/core/src.
pub mod Errors
pub mod Io
pub mod Retry
pub mod Types
pub mod Config
pub mod Client
pub mod Tests
