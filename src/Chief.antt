-- ===== src/Chief.antt =====
-- src/agents/chief.py: the coordinator.
pub mod Report
pub mod Shared
pub mod Ready
pub mod Summary
pub mod Session
pub mod Accept
pub mod Planned
pub mod Board
pub mod Delegate
pub mod Resumed
pub mod Delegated
