-- ===== src/Command/Executor/Repeat.antt =====
-- A command that failed is answered from its receipt too
-- (backend/app/services/workflow_command_executor.py).
use filum_reforge.Base.{ℕ, String, some}
use filum_reforge.Errors.{Failure}
use filum_reforge.Command.Receipt.{failed, Key, Receipt, Command, new_receipt}

-- The row that a failed command leaves.
unfoldable pub failed_row : Key → String → Command → Failure → ℕ → Receipt
failed_row key hash command e now = record (new_receipt key hash command) {
  status = failed;
  error = some e;
  completed_at = some now;
}
