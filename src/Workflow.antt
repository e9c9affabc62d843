-- ===== src/Workflow.antt =====
-- The planning workflow: src/agents/graph, the three model-backed nodes, and src/agents/handoff.py.
pub mod State
pub mod Nodes
pub mod Routing
pub mod Graph
pub mod Coherent
pub mod Handoff
pub mod Export
