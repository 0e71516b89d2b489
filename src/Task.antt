-- ===== src/Task.antt =====
-- Tasks that people work on: backend/app/services/task_service.py, task_action_policy.py and
-- task_user_facing_state.py of the same folder.
pub mod Defs
pub mod Actions
pub mod Services
pub mod Access
pub mod Commands
pub mod Handshake
pub mod Delegate
pub mod Reviewer
pub mod Deliverable
pub mod Review
pub mod Archive
pub mod Life
pub mod History
pub mod Offer
pub mod UserState
pub mod Tests
pub mod Paging
