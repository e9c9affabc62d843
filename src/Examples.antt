-- ===== src/Examples.antt =====
-- Concrete runs of the modelled code.
pub mod Data
pub mod Planner
pub mod Runtime
pub mod Records
pub mod Report
pub mod Chief
pub mod Isolation
pub mod Ownership
pub mod Tools
pub mod Explore
pub mod Delegation
pub mod Service
