-- ===== src/Runtime.antt =====
-- The start of a supervisor (runtime/*.mjs).
pub mod Authorization
pub mod Plans
pub mod Startup
pub mod DataDirectory
pub mod Maria
pub mod Marker
pub mod Handoff
