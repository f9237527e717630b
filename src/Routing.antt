-- ===== src/Routing.antt =====
-- Routes of applications to the members (routing).
pub mod Decision
pub mod Assignment
pub mod Events
