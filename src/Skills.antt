-- ===== src/Skills.antt =====
-- src/agents/skill_catalog.py: the catalog of skills, and the context files of a worker.
pub mod Catalog
pub mod Context
