-- ===== src/Examples.antt =====
-- Tests, and uses of the theorems on concrete data.
mod Cold
mod Protocols
mod Members
mod Routes
mod Nodes
mod Starts
mod Runs
mod Control
mod Handoffs
mod Shutdowns
mod Quoting
mod Markers
