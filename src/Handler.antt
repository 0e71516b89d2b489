-- ===== src/Handler.antt =====
-- Node handlers (backend/app/services/workflow_node_handlers.py) and the policy for decisions
-- (backend/app/services/workflow_decision_policy.py).
pub mod Defs
pub mod Policy
pub mod HumanTask
pub mod Notice
pub mod Approval
pub mod Registry
pub mod Outcomes
mod Tests
