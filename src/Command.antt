-- ===== src/Command.antt =====
-- Idempotent workflow commands: receipts, the executor, and the incidents that it records.
pub mod Incident
pub mod Receipt
pub mod Executor
mod Tests
