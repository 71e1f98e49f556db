-- ===== src/Sdk/Errors/RoundTrip.antt =====
-- What the SDK reads back from the messages that the proxy prints.
mod Search
mod Targets
pub mod Formats
