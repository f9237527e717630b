-- ===== src/Recovery/Protocol.antt =====
-- The cold recovery protocol of a supervisor (cold-bootstrap/protocol.mjs over decision-store.mjs).
-- A method is an action on the protocol's variables, which keep what was written before a throw. The
-- evidence that a collection gathers, and the clock, come in as arguments of the method.
pub mod Base
pub mod Planning
pub mod Collected
pub mod Handlers
pub mod Backing
pub mod Keeps
pub mod KeepsPlan
pub mod Steps
pub mod Authority
