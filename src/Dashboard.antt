-- ===== src/Dashboard.antt =====
-- The web dashboard (dashboard/src), its server side.
pub mod Session
pub mod Ownership
pub mod Actions
pub mod Middleware
pub mod Login
pub mod Audit
pub mod Agent
pub mod SignIn
pub mod Chat
pub mod Proxy
pub mod Pages
pub mod Home
pub mod Site
pub mod Spend
pub mod Tests
