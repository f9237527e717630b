-- ===== src/Lifecycle.antt =====
-- The life of a node's supervisor (lifecycle).
pub mod PendingInit
pub mod Reset
pub mod Drain
pub mod Shutdown
