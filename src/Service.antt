-- ===== src/Service.antt =====
-- src/api/service.py: runs of the planning workflow behind the HTTP interface.
pub mod Runs
pub mod Rests
pub mod Reached
