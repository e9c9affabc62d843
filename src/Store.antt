-- ===== src/Store.antt =====
-- src/agents/state_store.py: Chief's SQLite database.
pub mod Table
pub mod Database
pub mod Operations
pub mod Consistent
pub mod Runs
pub mod Sequence
pub mod Queries
pub mod Outcome
pub mod Steps
