-- ===== src/Recovery.antt =====
-- The recovery of a cluster that is wholly down (cluster/cold-bootstrap and the runtime around it).
pub mod Evidence
pub mod Candidate
pub mod State
pub mod Epoch
pub mod Protocol
pub mod Lease
pub mod Bootstrap
pub mod Startup
pub mod Joiners
