-- ===== src/Explore.antt =====
-- The tools of src/agents/tools/repository_tools.py, which read one checkout.
pub mod Access
pub mod Read
pub mod Search
pub mod Confined
pub mod Bounded
pub mod Exact
