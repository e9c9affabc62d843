-- ===== src/Schemas.antt =====
-- src/schemas: the pydantic models that the program validates at its boundaries.
pub mod Issue
pub mod Repository
pub mod Approval
pub mod Planning
pub mod Runtime
pub mod Handoff
