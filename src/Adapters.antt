-- ===== src/Adapters.antt =====
-- The adapters of the SDK to agent frameworks: examples/cod3x and examples/openclaw.
pub mod Cod3x
pub mod Openclaw
pub mod Eliza
pub mod Tests
