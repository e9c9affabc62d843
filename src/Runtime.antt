-- ===== src/Runtime.antt =====
-- `RuntimeToolService` of src/agents/tools/runtime_tools.py: the tools of one worker.
pub mod Tool
pub mod Limits
pub mod Service
pub mod Diff
pub mod Approval
pub mod Patch
pub mod Check
pub mod Run
pub mod Scope
pub mod Git
pub mod Guarded
pub mod Committed
pub mod Started
pub mod Calls
pub mod Traces
pub mod Captured
pub mod Finished
