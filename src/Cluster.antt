-- ===== src/Cluster.antt =====
-- Observations of the members, quorum, and lifecycle requests (src/cluster).
pub mod Observation
pub mod Quorum
pub mod Shutdown
pub mod Lifecycle
