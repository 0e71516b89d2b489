-- ===== src/Task/Services.antt =====
-- The state that a command of backend/app/services/task_service.py works on, and what it calls:
-- queries of other tables, the coordinator of tasks and nodes, deliverables and notifications.
use filum_reforge.Base.{ℕ, String, Bool, Option, none, some, List, [], ◌∷◌, ◌++◌}
use filum_reforge.Value.{Value, Fields, ℤ}
use filum_reforge.Errors.{Failure, Result, ok, raise}
use filum_reforge.Handler.Defs.{BusinessState}
use filum_reforge.Task.Defs.{Task, TaskStatus, User}

pub data TaskActionType : Type 0 where
  assigned status_changed closed due_date_changed : TaskActionType

pub record TaskLog : Type 0 where
  pub operator_id : String
  pub action_type : TaskActionType
  pub from_status : Option TaskStatus
  pub to_status : Option TaskStatus
  pub detail : Fields

-- The row of the task, its log, and every other table in one.
pub record TaskState (R : Type 0) : Type 0 where
  pub row : Task
  pub logs : List TaskLog
  pub runtime : R

-- A task that the task depends on.
pub record TaskDependency : Type 0 where
  pub title : String
  pub status : TaskStatus

-- Whom the template and the run of a graph instance belong to.
pub record InstanceOwners : Type 0 where
  pub template_owner : Option String
  pub initiator : Option String

-- The policy and the state of the node of a template task.
pub record NodeContext : Type 0 where
  pub completion_policy : Option String
  pub is_completed : Bool

pub record TaskServices (R : Type 0) : Type 0 where
  pub parse_uuid : String → Option String
  pub parse_int : String → Option ℤ
  pub show_value : Value → String
  pub show_time : ℕ → String
  pub get_user : R → String → Option User
  pub managed_department_ids : R → String → List String
  pub can_manage_assignee : R → User → String → Bool
  pub blocking_dependencies : R → String → List TaskDependency
  pub stored_attachment_ids : R → String → List String → List String
  pub supervisor_of : R → String → Option String
  pub department_manager : R → String → Option String
  pub find_instance : R → String → Option InstanceOwners
  pub system_admin_ids : R → List String
  pub load_node_context : Task → R → Option NodeContext × R
  pub sync_status : Task → TaskStatus → ℕ → Option BusinessState → R → Result R
  pub sync_handshake : Task → BusinessState → ℕ → Option String → Bool → R → Result R
  pub upsert_deliverable :
      Task → User → Option String → List String → ℕ → Bool → R → Result (Fields × R)
  pub record_review :
      Task → User → String → Option String → ℕ → Option ℤ → Option ℤ → R → Result (Fields × R)
  pub after_node_completed : User → Task → R → Result R
  pub is_handshake_required : Task → R → Bool
  pub accept_node : Task → ℕ → R → R
  pub progress_instance : Task → R → R × Option Failure
  pub send_assignment : Task → User → R → R × Option Failure
  pub archive_instance_id : Task → R → Option String
  pub cancel_instance : User → String → String → Bool → R → Result (List String × R)
  pub find_task : R → String → Option Task
  pub put_task : Task → TaskLog → R → R

module _ {R : Type 0} where
  -- `_create_task_log`
  unfoldable pub create_task_log : TaskLog → TaskState R → TaskState R
  create_task_log log state = record state { logs = state.logs ++ log ∷ [] }

  -- Nothing that a command wrote stays when it raises before its commit; what follows the commit
  -- works on what was committed.
  unfoldable pub finish_command :
      TaskState R
      → Result (TaskState R)
      → (TaskState R → R × Option Failure)
      → TaskState R × Option Failure
  finish_command before (raise e) after = (before, some e)
  finish_command before (ok committed) after =
      let (runtime, failure) = after committed in (record committed { runtime = runtime }, failure)

  abbrev pub no_more : TaskState R → R × Option Failure
  no_more state = (state.runtime, none)
