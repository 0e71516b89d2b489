-- ===== src/Runtime.antt =====
-- The graph engine, version 3: `_activate_downstream_v3` of
-- backend/app/services/workflow_graph_service.py and what it calls.
pub mod Defs
pub mod Routes
pub mod Reach
pub mod Nodes
pub mod Complete
pub mod Join
pub mod Advance
mod Tests
